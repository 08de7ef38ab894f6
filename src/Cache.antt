-- ===== src/Cache.antt =====
-- cache.py: the cache directory. Writing a file, renaming a directory and reading a file back are the
-- file system's; what stands below the root is the state.
pub mod Laws
pub mod Sound
use Prim.Native.Char.{char}
use k_dash.Base.{
  ℕ, ◌+◌, ◌≡◌, String, ◌<>◌, Bool, true, false, not, ◌&&◌, ◌||◌, Option, none, some, List, [], ◌∷◌,
  ◌++◌, ◌==◌, length, if◌then◌else◌, Result, ok, err, raise, raise_if, raise_python, ◌>>=◌, ◌>>◌,
  Error, k_dash_error, artifact_integrity, attribute_error, os_error,
}
use k_dash.Base.Exec.{Exec, ◌>>=◌ as ◌>>=ᴱ◌}
use k_dash.Base.Text.{remove_prefix, replace_char}
use k_dash.Json.{Value, null, obj, str, Fields, end, field, get_or_null, get_field}
use k_dash.External.{Bytes, Libraries}
use k_dash.Canonical.{canonical_json}
use k_dash.Artifact.{Codec, equals_text}
use k_dash.Project.Extract.{Written, extract_source_archive, is_absolute, parts, same_path}

-- A directory of `releases`: the files that stand in it.
pub record ReleaseDir : Type 0 where
  pub config : Option Bytes
  pub archive : Option Bytes
  pub source : Option (List Written)

-- A directory of `builds`
pub record BuildDir : Type 0 where
  pub config : Option Bytes
  pub kernel_so : Option Bytes

-- What stands below the root. Locks are empty files, and `tmp` is empty between two calls.
pub record Cache : Type 0 where
  pub releases : List (String × ReleaseDir)
  pub builds : List (String × BuildDir)
  pub resolutions : List (List String × Bytes)

abbrev pub empty_cache : Cache
empty_cache = record { releases = []; builds = []; resolutions = [] }

-- Reading a cache: json.loads of a file, without a hook, and whether a rename onto a directory that is
-- not empty raises a FileExistsError (EEXIST); it raises another OSError (ENOTEMPTY) otherwise.
pub record Files : Type 0 where
  pub read_json : Bytes → Result Value
  pub reports_exists : Bool

abbrev pub find_dir {ℓ} : {A : Type ℓ} → String → List (String × A) → Option A
find_dir name [] = none
find_dir name ((n, a) ∷ rest) = if n == name then some a else find_dir name rest

abbrev pub find_path {ℓ} : {A : Type ℓ} → List String → List (List String × A) → Option A
find_path path [] = none
find_path path ((p, a) ∷ rest) = if same_path p path then some a else find_path path rest

abbrev pub set_path {ℓ} :
    {A : Type ℓ} → List String → A → List (List String × A) → List (List String × A)
set_path path a [] = (path, a) ∷ []
set_path path a ((p, b) ∷ rest) =
    if same_path p path then (p, a) ∷ rest else (p, b) ∷ set_path path a rest

-- The name of the directory of a digest, which is neither empty nor has slashes
abbrev pub dir_name : String → String
dir_name digest = remove_prefix digest "sha256:"

abbrev pub incomplete : Error
incomplete = k_dash_error artifact_integrity "cached Release config is incomplete" "cache"

abbrev pub key_mismatch : Error
key_mismatch = k_dash_error artifact_integrity "cached BuildKey mismatch" "cache"

-- `value.get(key)`, with None for a missing key
abbrev pub get_value : String → Value → Result Value
get_value key (obj fs) = ok (get_or_null key fs)
get_value key _ = raise_python attribute_error

-- `value.get("source", {})`
abbrev pub get_source : Value → Result Value
get_source (obj fs) = elim (get_field "source" fs) [ none ↦ ok (obj end) | some v ↦ ok v ]
get_source _ = raise_python attribute_error

abbrev pub is_null : Value → Bool
is_null null = true
is_null _ = false

-- A part that is absolute starts the path anew.
abbrev pub join_parts : List String → String → List String
join_parts base name = if is_absolute name then parts name else base ++ parts name

abbrev pub escape_slashes : String → String
escape_slashes version = replace_char (char 47 tt) "%2F" version

-- The path below `resolutions`
abbrev pub resolution_path : (registry kernel version : String) → List String
resolution_path registry kernel version =
    join_parts (join_parts [] registry) kernel ++ (escape_slashes version <> ".json") ∷ []

-- A release that is complete: its config, its archive and its source directory.
abbrev pub CachedRelease : Type 0
CachedRelease = Value × Bytes × List Written

-- A config and the path of its kernel.so, for which its contents stand.
abbrev pub CachedBuild : Type 0
CachedBuild = Value × Bytes

module _ (files : Files) where
  abbrev pub read_release : ReleaseDir → Result (Option CachedRelease)
  read_release dir = elim dir.config [
    | none ↦ ok none
    | some bytes ↦ elim dir.archive [
      | none ↦ ok none
      | some archive ↦ elim dir.source [
        | none ↦ ok none
        | some source ↦ files.read_json bytes >>= λ config. get_source config >>= λ origin.
            get_value "digest" origin >>= λ digest.
            if is_null digest then err incomplete else ok (some (config, archive, source))
      ]
    ]
  ]

  unfoldable pub get_release : String → Cache → Result (Option CachedRelease)
  get_release digest c = elim (find_dir (dir_name digest) c.releases) [
    | none ↦ ok none
    | some dir ↦ read_release dir
  ]

  abbrev pub check_key : String → Bytes → Value → Result (Option CachedBuild)
  check_key key kernel_so config = get_value "build_key" config >>= λ found.
      if equals_text key found then ok (some (config, kernel_so)) else err key_mismatch

  abbrev pub read_build : String → BuildDir → Result (Option CachedBuild)
  read_build key dir = elim dir.config [
    | none ↦ ok none
    | some bytes ↦ elim dir.kernel_so [
      | none ↦ ok none
      | some kernel_so ↦ files.read_json bytes >>= λ config. check_key key kernel_so config
    ]
  ]

  unfoldable pub get_build : String → Cache → Result (Option CachedBuild)
  get_build key c = elim (find_dir (dir_name key) c.builds) [
    | none ↦ ok none
    | some dir ↦ read_build key dir
  ]

  -- `temporary.replace(destination)` with its handler, for a prepared directory. Another process may have
  -- put a directory there since the call began.
  unfoldable pub place_build : String → BuildDir → Cache → Result Cache
  place_build key dir c = elim (find_dir (dir_name key) c.builds) [
    | none ↦ ok (record c { builds = (dir_name key, dir) ∷ c.builds })
    | some _ ↦ if files.reports_exists then ok c else raise_python os_error
  ]

  unfoldable pub place_release : String → ReleaseDir → Cache → Result Cache
  place_release digest dir c = elim (find_dir (dir_name digest) c.releases) [
    | none ↦ ok (record c { releases = (dir_name digest, dir) ∷ c.releases })
    | some _ ↦ if files.reports_exists then ok c else raise_python os_error
  ]

  -- None stands for a file that is missing and for a missing digest alike.
  unfoldable pub get_resolution : (registry kernel version : String) → Cache → Result Value
  get_resolution registry kernel version c =
      elim (find_path (resolution_path registry kernel version) c.resolutions) [
        | none ↦ ok null
        | some bytes ↦ files.read_json bytes >>= λ content. get_value "release_digest" content
      ]

  module _ (lib : Libraries) where
    -- What stands in the temporary directory of `commit_build` before the rename.
    unfoldable pub stage_build : Fields → Bytes → Result BuildDir
    stage_build config kernel_so = do
      bytes ← canonical_json lib (obj config)
      ok (record { config = some bytes; kernel_so = some kernel_so })

    unfoldable pub commit_build : String → Fields → Bytes → Cache → Result Cache
    unfolding stage_build place_build
    commit_build key config kernel_so c = elim (find_dir (dir_name key) c.builds) [
      | some _ ↦ ok c
      | none ↦ stage_build config kernel_so >>= λ dir. place_build key dir c
    ]

    unfoldable pub stage_release : Codec → Fields → Bytes → Result ReleaseDir
    stage_release codec config archive = do
      bytes ← canonical_json lib (obj config)
      source ← extract_source_archive codec archive
      ok (record { config = some bytes; archive = some archive; source = some source })

    unfoldable pub commit_release : Codec → String → Fields → Bytes → Cache → Result Cache
    unfolding stage_release place_release
    commit_release codec digest config archive c = elim (find_dir (dir_name digest) c.releases) [
      | some _ ↦ ok c
      | none ↦ stage_release codec config archive >>= λ dir. place_release digest dir c
    ]

module _ (lib : Libraries) where
  unfoldable pub put_resolution : (registry kernel version digest : String) → Cache → Result Cache
  put_resolution registry kernel version digest c = do
    bytes ← canonical_json lib (obj (field "release_digest" (str digest) end))
    ok (record c {
      resolutions = set_path (resolution_path registry kernel version) bytes c.resolutions;
    })

abbrev pub size_of_file : Option Bytes → ℕ
size_of_file none = 0
size_of_file (some content) = length content

abbrev pub size_of_written : List Written → ℕ
size_of_written [] = 0
size_of_written (w ∷ ws) = length w.content + size_of_written ws

abbrev pub size_of_source : Option (List Written) → ℕ
size_of_source none = 0
size_of_source (some ws) = size_of_written ws

abbrev pub size_of_releases : List (String × ReleaseDir) → ℕ
size_of_releases [] = 0
size_of_releases ((n, d) ∷ rest) =
    size_of_file d.config + size_of_file d.archive + size_of_source d.source + size_of_releases rest

abbrev pub size_of_builds : List (String × BuildDir) → ℕ
size_of_builds [] = 0
size_of_builds ((n, d) ∷ rest) =
    size_of_file d.config + size_of_file d.kernel_so + size_of_builds rest

abbrev pub size_of_resolutions : List (List String × Bytes) → ℕ
size_of_resolutions [] = 0
size_of_resolutions ((p, content) ∷ rest) = length content + size_of_resolutions rest

-- `size()`
unfoldable pub size : Cache → ℕ
size c = size_of_releases c.releases + size_of_builds c.builds + size_of_resolutions c.resolutions

-- The directories that `clean` empties. `tmp` has no state here.
pub data CacheChild : Type 0 where
  releases_child : CacheChild
  builds_child : CacheChild
  resolutions_child : CacheChild
  tmp_child : CacheChild

abbrev pub emptied : CacheChild → Cache → Cache
emptied releases_child c = record c { releases = [] }
emptied builds_child c = record c { builds = [] }
emptied resolutions_child c = record c { resolutions = [] }
emptied tmp_child c = c

-- `shutil.rmtree` of a part of the cache: `none` where it removes the whole part, and what the cache then
-- holds where it raises an OSError, perhaps midway.
abbrev pub Rmtree : (A : Type 0) → Type 0
Rmtree A = A → Cache → Option Cache

abbrev pub end_rmtree : Option Cache → (removed : Cache) → Result (Unit {0}) × Cache
end_rmtree none removed = (ok tt, removed)
end_rmtree (some left) removed = (raise_python os_error, left)

-- One round of the loop of `clean`
abbrev pub clean_child : Rmtree CacheChild → CacheChild → Exec Cache (Unit {0})
clean_child rmtree child c = end_rmtree (rmtree child c) (emptied child c)

unfoldable pub clean : Rmtree CacheChild → Exec Cache (Unit {0})
clean rmtree = clean_child rmtree releases_child >>=ᴱ λ _. clean_child rmtree builds_child >>=ᴱ λ _.
    clean_child rmtree resolutions_child >>=ᴱ λ _. clean_child rmtree tmp_child
