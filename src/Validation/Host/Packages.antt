-- ===== src/Validation/Host/Packages.antt =====
-- `validate_host_dependencies` of validation.py: the libraries and packages that a build asks for.
use k_dash.Base.{
  ℕ, String, Option, none, some, List, [], ◌∷◌, ◌==◌, contains, if◌then◌else◌, Result, ok, err,
  raise_if, raise_python, Error, type_error, attribute_error,
}
use k_dash.Base.Exec.{Exec, pure, lift, ◌>>=◌, ◌>>◌}
use k_dash.Base.Decimal.{take_digits, number}
use k_dash.Json.{Value, str, arr, obj, Items, nil, cons, Fields, end, get_or_null}
use k_dash.Config.{get_or}
use k_dash.Artifact.{equals_text}
use k_dash.Project.Extract.{relative_parts}
use k_dash.Validation.Versions.{split_dots, tuple_lt}
use k_dash.Validation.Host.{host_error, Linker, Process, last_field, inspect, open_now}

abbrev pub lead : List ℕ × String → (rest : List ℕ) → List ℕ
lead ([], after) rest = []
lead (d ∷ ds, String.[]) rest = number (d ∷ ds) ∷ rest
lead (d ∷ ds, String.◌∷◌ c after) rest = number (d ∷ ds) ∷ []

-- The numbers at the front of the parts, up to the first part that is more than digits
abbrev pub leading : List String → List ℕ
leading [] = []
leading (part ∷ rest) = lead (take_digits part) (leading rest)

-- `_package_version_tuple`
unfoldable pub package_version_tuple : String → List ℕ
package_version_tuple value = leading (split_dots value)

-- `_package_version_tuple(requirement.get("min_version", "0"))`
abbrev pub minimum_of : Value → Result (List ℕ)
minimum_of (str s) = ok (package_version_tuple s)
minimum_of _ = raise_python type_error

-- `Path(path).name`
abbrev pub file_name : String → String
file_name path = last_field (relative_parts path)

-- `next(path for path in candidates if Path(path).name == soname)`
abbrev pub find_runtime : (soname : Value) → List String → Option String
find_runtime soname [] = none
find_runtime soname (path ∷ paths) =
    if equals_text (file_name path) soname then some path else find_runtime soname paths

abbrev pub native_error : Error
native_error = host_error "CuteDSL native runtime library is unavailable"

abbrev pub runtime_of : (soname : Value) → Option (List String) → Result String
runtime_of soname none = err native_error
runtime_of soname (some paths) = elim (find_runtime soname paths) [
  | none ↦ err native_error
  | some path ↦ ok path
]

-- `config.get("host_dependencies", [])` as a loop takes it; what is no list has no entries with a `get`.
abbrev pub requirements_of : Value → Result Items
requirements_of (arr vs) = ok vs
requirements_of (obj end) = ok nil
requirements_of (obj _) = raise_python attribute_error
requirements_of (str s) = if s == "" then ok nil else raise_python attribute_error
requirements_of _ = raise_python type_error

abbrev pub requirement_fields : Value → Result Fields
requirement_fields (obj fs) = ok fs
requirement_fields _ = raise_python attribute_error

module _ {P : Type 0} (linker : Linker P) where
  abbrev pub keep_handle : (name : String) → Exec (Process P) (Unit {0})
  keep_handle name s = (ok tt, record s { handles = name ∷ s.handles })

  abbrev pub get_handles : Exec (Process P) (List String)
  get_handles s = (ok s.handles, s)

  -- `if name not in _HOST_LIBRARY_HANDLES: …`
  unfoldable pub open_once : Error → (name : String) → Exec (Process P) (Unit {0})
  open_once failure name = do
    handles ← get_handles
    if contains handles name then pure tt else (do open_now linker failure name; keep_handle name)

  abbrev pub installed_version : Option String → Result String
  installed_version none = err (host_error "CuteDSL runtime package is unavailable")
  installed_version (some version) = ok version

  -- The entry for CuteDSL
  unfoldable pub require_cutedsl : Fields → Exec (Process P) (Unit {0})
  unfolding open_once
  require_cutedsl requirement = do
    found ← inspect (linker.package_version "nvidia-cutlass-dsl")
    installed ← lift (installed_version found)
    minimum ← lift (minimum_of (get_or "min_version" (str "0") requirement))
    lift (
        raise_if (tuple_lt (package_version_tuple installed) minimum)
          (host_error "CuteDSL runtime package is too old"))
    candidates ← inspect linker.runtime_libraries
    runtime ← lift (runtime_of (get_or_null "soname" requirement) candidates)
    open_once native_error runtime

  abbrev pub require_soname : Value → Exec (Process P) (Unit {0})
  require_soname (str soname) =
      open_once (host_error "required host dependency is unavailable") soname
  require_soname _ = pure tt

  unfoldable pub require : Value → Exec (Process P) (Unit {0})
  unfolding require_cutedsl
  require v = do
    requirement ← lift (requirement_fields v)
    (if equals_text "cutedsl-runtime" (get_or_null "name" requirement)
        then require_cutedsl requirement
        else require_soname (get_or_null "soname" requirement))

  unfoldable pub require_all : Items → Exec (Process P) (Unit {0})
  unfolding require
  require_all nil = pure tt
  require_all (cons v vs) = require v >>= λ _. require_all vs

  unfoldable pub validate_host_dependencies : Fields → Exec (Process P) (Unit {0})
  unfolding require_all
  validate_host_dependencies config = do
    requirements ← lift (requirements_of (get_or "host_dependencies" (arr nil) config))
    require_all requirements
