-- ===== src/Cli.antt =====
-- cli.py: what a command does once argparse has read it, and the exit code of the program.
pub mod Run
pub mod Listed
pub mod Oldest
pub mod Removals
pub mod Sound
use k_dash.Base.{
  ℕ, suc, ◌*◌, ◌^◌, ◌≤◌, ◌≡◌, String, Char, code, ◌<>◌, Bool, true, false, not, ◌&&◌, ◌||◌, Option,
  none, some, List, [], ◌∷◌, ◌++◌, ◌==◌, nat_eq, ltb, leb, keep, map, if◌then◌else◌, Result, ok,
  err, raise, Error, k_dash_error, python_error, operational,
}
use k_dash.Base.Exec.{Exec, ◌>>=◌ as ◌>>=ᴱ◌}
use k_dash.Base.Text.{strip, is_space}
use k_dash.Json.{
  Value, null, bool, int, str, arr, obj, Items, nil, cons, Fields, end, field, fields, items,
}
use k_dash.Json.Numbers.{ℤ, pos, negsuc}
use k_dash.External.{Bytes, Libraries}
use k_dash.Artifact.{Codec}
use k_dash.Project.{Readers, load_project}
use k_dash.Project.Tree.{Node, Entries, Fnmatch}
use k_dash.Cache.{Cache, Files, ReleaseDir, BuildDir, Rmtree, end_rmtree, size}
use k_dash.Validation.{ReadElf}
use k_dash.Runtime.{Registries, State}
use k_dash.Api.{Surroundings}
use k_dash.Templates.{Resources, init_project}
use k_dash.Publish.Objects.{Clients, Builders, Published}
use k_dash.Publish.Release.{ReleaseRequest, publish_release}
use k_dash.Publish.Local.{LocalRequest, LocalBuild, local_build}
use k_dash.Publish.Addition.{AdditionRequest, Addition, publish_build}

-- `value.endswith(suffix)`, with what stands before it
unfoldable pub strip_suffix : (suffix value : String) → Option String
strip_suffix suffix String.[] = if suffix == "" then some "" else none
strip_suffix suffix (String.◌∷◌ c s) =
    let rest = strip_suffix suffix s in
    if String.◌∷◌ c s == suffix
    then some ""
    else elim rest [ none ↦ none | some before ↦ some (String.◌∷◌ c before) ]

-- The units in the order in which they are tried
abbrev pub units : List (String × ℕ)
units = ("KIB", 2 ^ 10) ∷ ("MIB", 2 ^ 20) ∷ ("GIB", 2 ^ 30) ∷ ("TIB", 2 ^ 40) ∷ ("B", 1) ∷ []

-- `str.upper()`, and `int(float(text) * unit)` with what it raises
pub record Numerals : Type 0 where
  pub upper : String → String
  pub scaled : (text : String) → (unit : ℕ) → Result ℤ

unfoldable pub size_in : Numerals → List (String × ℕ) → (value : String) → Result ℤ
size_in numerals [] value = raise operational "size must use B/KiB/MiB/GiB/TiB" "cache"
size_in numerals ((unit, factor) ∷ rest) value = elim (strip_suffix unit value) [
  | none ↦ size_in numerals rest value
  | some before ↦ numerals.scaled before factor
]

-- `_size`
unfoldable pub parse_size : Numerals → (value : String) → Result ℤ
unfolding size_in strip_suffix
parse_size numerals value = size_in numerals units (numerals.upper (strip is_space value))

-- A directory of `builds` or of `releases`
pub data CacheEntry : Type 0 where
  a_build : (name : String) → CacheEntry
  a_release : (name : String) → CacheEntry

-- `size > maximum`
abbrev pub exceeds : ℕ → (maximum : ℤ) → Bool
exceeds n (pos m) = ltb m n
exceeds n (negsuc m) = true

abbrev pub build_entries : List (String × BuildDir) → List CacheEntry
build_entries [] = []
build_entries ((name, d) ∷ rest) = a_build name ∷ build_entries rest

abbrev pub release_entries : List (String × ReleaseDir) → List CacheEntry
release_entries [] = []
release_entries ((name, d) ∷ rest) = a_release name ∷ release_entries rest

-- What is left when a directory is gone
unfoldable pub remove_entry : CacheEntry → Cache → Cache
remove_entry (a_build name) c = record c {
  builds = keep (λ (p : String × BuildDir). not (p.0 == name)) c.builds;
}
remove_entry (a_release name) c = record c {
  releases = keep (λ (p : String × ReleaseDir). not (p.0 == name)) c.releases;
}

-- `path.stat().st_mtime`
module _ (mtime : CacheEntry → ℕ) where
  unfoldable pub insert_entry : CacheEntry → List CacheEntry → List CacheEntry
  insert_entry e [] = e ∷ []
  insert_entry e (f ∷ fs) = if leb (mtime e) (mtime f) then e ∷ f ∷ fs else f ∷ insert_entry e fs

  -- `sorted`, which keeps the order of entries of one time
  unfoldable pub sort_entries : List CacheEntry → List CacheEntry
  unfolding insert_entry
  sort_entries [] = []
  sort_entries (e ∷ es) = insert_entry e (sort_entries es)

-- `shutil.rmtree(entries.pop(0))`
abbrev pub rmtree_entry : Rmtree CacheEntry → CacheEntry → Exec Cache (Unit {0})
rmtree_entry rmtree e c = end_rmtree (rmtree e c) (remove_entry e c)

-- `while cache.size() > maximum and entries: …`
unfoldable pub prune_loop :
    Rmtree CacheEntry → (maximum : ℤ) → List CacheEntry → Exec Cache (Unit {0})
prune_loop rmtree maximum [] c = (ok tt, c)
prune_loop rmtree maximum (e ∷ es) c =
    let rest = prune_loop rmtree maximum es in
    if exceeds (size c) maximum then (rmtree_entry rmtree e >>=ᴱ λ _. rest) c else (ok tt, c)

-- `_prune`
unfoldable pub prune :
    Rmtree CacheEntry → (mtime : CacheEntry → ℕ) → (maximum : ℤ) → Exec Cache (Unit {0})
unfolding sort_entries prune_loop
prune rmtree mtime maximum c =
    prune_loop rmtree maximum
      (sort_entries mtime (build_entries c.builds ++ release_entries c.releases)) c
