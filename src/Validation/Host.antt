-- ===== src/Validation/Host.antt =====
-- The checks of the running host in validation.py. The dynamic linker and the installed packages are a
-- parameter; _HOST_LIBRARY_HANDLES is a part of the state.
pub mod Packages
pub mod Cxx
use k_dash.Base.{
  ℕ, String, Char, Bool, true, false, not, ◌&&◌, Option, none, some, List, [], ◌∷◌, ◌==◌, leb,
  length, contains, if◌then◌else◌, Result, ok, err, raise_if, raise_python, ◌>>=◌ as ◌>>=ᴿ◌, Error,
  k_dash_error, artifact_integrity, key_error, type_error, value_error, attribute_error,
}
use k_dash.Base.Exec.{Exec, pure, lift, ◌>>=◌, ◌>>◌}
use k_dash.Base.Text.{strip_prefix, is_space}
use k_dash.Base.Decimal.{take_digits, number}
use k_dash.Json.{Value, null, str, arr, obj, Items, nil, cons, Fields, end, get_field, get_or_null}
use k_dash.Config.{get_or}
use k_dash.Artifact.{equals_text}
use k_dash.Validation.Versions.{split_dots, whole_numbers, last_part, tuple_lt, maximum_version}

abbrev pub host_error : String → Error
host_error message = k_dash_error artifact_integrity message "runtime-dependencies"

-- ctypes, /proc/self/maps, importlib.metadata and cutlass.runtime, over a process in some state
pub record Linker (P : Type 0) : Type 0 where
  -- `ctypes.CDLL(name, mode=RTLD_GLOBAL)`, which raises an OSError or succeeds
  pub open_library : String → P → Bool × P
  -- the lines of /proc/self/maps, `none` if there is no such file
  pub maps : P → Option (List String)
  -- `Path(path).is_file()`
  pub is_file : String → P → Bool
  -- the names in .gnu.version_d of an ELF file, or what pyelftools raises
  pub version_definitions : String → P → Result (List String)
  -- the version of a package, `none` if it is not installed
  pub package_version : String → P → Option String
  -- `cutlass.runtime.find_runtime_libraries`, `none` where the import or the call raises an ImportError or
  -- an OSError
  pub runtime_libraries : P → Option (List String)

-- A process, with the names of the libraries that it has opened
pub record Process (P : Type 0) : Type 0 where
  pub handles : List String
  pub inner : P

abbrev pub last_field : List String → String
last_field [] = ""
last_field (field ∷ []) = field
last_field (field ∷ next ∷ rest) = last_field (next ∷ rest)

module _ {P : Type 0} where
  abbrev pub inspect {ℓ} : {A : Type ℓ} → (P → A) → Exec (Process P) A
  inspect question s = (ok (question s.inner), s)

  abbrev pub end_open : Error → (handles : List String) → Bool × P → Result (Unit {0}) × Process P
  end_open failure handles (true, p) = (ok tt, record { handles = handles; inner = p })
  end_open failure handles (false, p) = (err failure, record { handles = handles; inner = p })

  -- `ctypes.CDLL`, without keeping the handle
  abbrev pub open_now : Linker P → Error → (name : String) → Exec (Process P) (Unit {0})
  open_now linker failure name s = end_open failure s.handles (linker.open_library name s.inner)
