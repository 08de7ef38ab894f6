-- ===== src/Cli/Run.antt =====
-- `_run` and `main` of cli.py, after argparse.
use k_dash.Base.{
  ℕ, String, ◌<>◌, true, Option, none, some, List, [], ◌∷◌, ◌==◌, if◌then◌else◌, Result, ok, err,
  k_dash_error, python_error,
}
use k_dash.Base.Exec.{Exec, pure, lift, ◌>>=◌, ◌>>◌}
use k_dash.Json.{Value, bool, int, str, arr, obj, Items, nil, cons, Fields, end, field, fields}
use k_dash.Json.Numbers.{pos}
use k_dash.External.{Libraries}
use k_dash.Artifact.{Codec}
use k_dash.Project.{Readers, load_project}
use k_dash.Project.Tree.{directory, Node, Entries, Fnmatch}
use k_dash.Cache.{Cache, Files, Rmtree, CacheChild, size, clean}
use k_dash.Validation.{ReadElf}
use k_dash.Runtime.{Registries, State}
use k_dash.Api.{Surroundings}
use k_dash.Templates.{Resources, init_project}
use k_dash.Publish.Objects.{Clients, Builders, Published}
use k_dash.Publish.Release.{ReleaseRequest, publish_release}
use k_dash.Publish.Local.{LocalRequest, LocalBuild, local_build}
use k_dash.Publish.Addition.{AdditionRequest, Addition, publish_build}
use k_dash.Project.Extract.{split_slash}
use k_dash.Cli.{Numerals, CacheEntry, parse_size, prune}

-- A command as argparse hands it over; a destination is its path and what stands there.
pub data Command : Type 0 where
  init : (kernel template : String) (license path : Option String) → Command
  build : LocalRequest → Command
  publish : ReleaseRequest → Command
  publish_addition : AdditionRequest → Command
  cache_info : Command
  cache_clean : Command
  cache_prune : (max_size : String) → Command

abbrev pub last_segment : List String → String
last_segment [] = ""
last_segment (part ∷ []) = part
last_segment (part ∷ next ∷ rest) = last_segment (next ∷ rest)

abbrev pub destination_of : (kernel_parts : List String) → Option String → String
destination_of kernel_parts none = last_segment kernel_parts
destination_of kernel_parts (some path) = path

abbrev pub text_dict : List (String × String) → Fields
text_dict [] = end
text_dict ((k, v) ∷ rest) = field k (str v) (text_dict rest)

abbrev pub published_value : Published → Value
published_value p = obj (
    fields (
      ("release_digest", str p.release_digest)
      ∷ ("builds", obj (text_dict p.builds))
      ∷ ("registries", obj (text_dict p.registries))
      ∷ []))

abbrev pub addition_value : Addition → Value
addition_value a = obj (
    fields (
      ("release_digest", str a.release_digest)
      ∷ ("build_key", str a.build_key)
      ∷ ("registries", obj (text_dict a.registries))
      ∷ []))

abbrev pub local_value : (cache_root : String) → LocalBuild → Value
local_value cache_root b = obj (
    fields (
      ("build_key", str b.key)
      ∷ ("release_digest", str b.release_digest)
      ∷ ("path", str (cache_root <> ("/builds/" <> (b.directory <> "/kernel.so"))))
      ∷ ("cache_hit", bool b.hit)
      ∷ ("provenance", b.provenance)
      ∷ []))

abbrev pub local_values : (cache_root : String) → List LocalBuild → Items
local_values cache_root [] = nil
local_values cache_root (b ∷ bs) = cons (local_value cache_root b) (local_values cache_root bs)

-- What a command works on: the state of the process, the project in the current directory and the
-- directories that a project can be made in.
pub record Shell (W : Type 0) : Type 0 where
  pub inner : State W
  pub cwd : Entries
  pub directories : List (String × Node)

abbrev pub directory_at : String → List (String × Node) → Option Node
directory_at path [] = none
directory_at path ((p, node) ∷ rest) = if p == path then some node else directory_at path rest

module _ {W : Type 0} where
  abbrev pub end_inner {ℓ} : {A : Type ℓ} → Shell W → Result A × State W → Result A × Shell W
  end_inner s (result, t) = (result, record s { inner = t })

  abbrev pub inside {ℓ} : {A : Type ℓ} → (Entries → Exec (State W) A) → Exec (Shell W) A
  inside call s = end_inner s (call s.cwd s.inner)

  abbrev pub end_init : (path : String) → Shell W → Result Entries → Result Value × Shell W
  end_init path s (ok es) = (
    ok (obj (fields (("path", str path) ∷ []))),
    record s { directories = (path, directory es) ∷ s.directories },
  )
  end_init path s (err e) = (err e, s)

  -- `init_project` in a destination
  abbrev pub init_at :
      Resources → (kernel path template : String) → (license : Option String) → Exec (Shell W) Value
  init_at res kernel path template license s =
      end_init path s
        (init_project res (str kernel) (directory_at path s.directories) template license)

  abbrev pub end_change : State W → Result (Unit {0}) × Cache → Result (Unit {0}) × State W
  end_change s (result, c) = (result, record s { cache = c })

  abbrev pub change_cache : Exec Cache (Unit {0}) → Exec (State W) (Unit {0})
  change_cache call s = end_change s (call s.cache)

  abbrev pub cache_size : Exec (State W) ℕ
  cache_size s = (ok (size s.cache), s)

-- What a command needs besides the registries and the builders
pub record Tools : Type 0 where
  pub resources : Resources
  pub numerals : Numerals
  pub mtime : CacheEntry → ℕ
  pub cache_root : String
  pub rmtree_entry : Rmtree CacheEntry
  pub rmtree_child : Rmtree CacheChild

module _ {W : Type 0} (lib : Libraries) (rd : Readers) (fnmatch : Fnmatch) (files : Files)
    (codec : Codec) (read_elf : ReadElf) (builders : Builders W) (clients : Clients W)
    (net : Registries W) (around : Surroundings) (tools : Tools) where
  abbrev pub run_prune : (max_size : String) → Exec (State W) Value
  run_prune max_size = do
    maximum ← lift (parse_size tools.numerals max_size)
    change_cache (prune tools.rmtree_entry tools.mtime maximum)
    left ← cache_size
    pure (
        obj (
          fields (
            ("path", str tools.cache_root)
            ∷ ("size", int (pos left))
            ∷ ("max_size", int maximum)
            ∷ [])))

  abbrev pub run_local : LocalRequest → (root : Entries) → Exec (State W) Value
  run_local q root = do
    loaded ← lift (load_project lib rd root)
    results ← local_build lib rd fnmatch files codec read_elf builders around q root
    pure (obj (fields (("builds", arr (local_values tools.cache_root results)) ∷ [])))

  abbrev pub run_info : Exec (State W) Value
  run_info = do
    total ← cache_size
    pure (obj (fields (("path", str tools.cache_root) ∷ ("size", int (pos total)) ∷ [])))

  abbrev pub run_clean : Exec (State W) Value
  run_clean = do
    change_cache (clean tools.rmtree_child)
    pure (obj (fields (("path", str tools.cache_root) ∷ ("cleaned", bool true) ∷ [])))

  -- `_run`
  unfoldable pub run_command : Command → Exec (Shell W) Value
  run_command (init kernel template license path) =
      init_at tools.resources kernel (destination_of (split_slash kernel) path) template license
  run_command (build q) = inside (run_local q)
  run_command (publish q) =
      inside (publish_release lib rd fnmatch files codec read_elf builders clients around q)
      >>= λ p. pure (published_value p)
  run_command (publish_addition q) =
      inside (publish_build lib rd fnmatch files codec read_elf builders clients net around q)
      >>= λ a. pure (addition_value a)
  run_command cache_info = inside (λ _. run_info)
  run_command cache_clean = inside (λ _. run_clean)
  run_command (cache_prune max_size) = inside (λ _. run_prune max_size)

  -- The exit code, and what is printed; `except KDashError` takes no other exception.
  abbrev pub exit_with : Result Value × Shell W → Result (ℕ × Option Value) × Shell W
  exit_with (ok result, s) = (ok (0, some result), s)
  exit_with (err (k_dash_error class message stage), s) = (ok (2, none), s)
  exit_with (err (python_error e), s) = (err (python_error e), s)

  unfoldable pub main : Command → Exec (Shell W) (ℕ × Option Value)
  unfolding run_command
  main command s = exit_with (run_command command s)
