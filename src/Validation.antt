-- ===== src/Validation.antt =====
-- validation.py: what is checked of a build and of its kernel.so. What pyelftools reads of a file is a
-- parameter. A warning that is given is not an effect here.
pub mod Versions
pub mod Maximum
pub mod Portable
pub mod Dependencies
pub mod Host
use k_dash.Base.{
  ℕ, suc, ◌≡◌, String, Bool, true, false, not, ◌&&◌, ◌||◌, Option, none, some, List, [], ◌∷◌, ◌++◌,
  ◌==◌, nat_eq, contains, length, if◌then◌else◌, Result, ok, err, raise, raise_if, raise_python,
  ◌>>=◌, ◌>>◌, Error, k_dash_error, artifact_integrity, type_error, attribute_error,
}
use k_dash.Base.Text.{starts_with}
use k_dash.Json.{
  Value, null, bool, int, float, str, arr, obj, other, Items, nil, cons, Fields, end, field, odd,
  get_field, get_or_null,
}
use k_dash.External.{Bytes, Libraries}
use k_dash.Canonical.{build_key, digest_bytes}
use k_dash.Config.{get_or, equals_one}
use k_dash.Artifact.{equals_text}
use k_dash.Project.Extract.{is_absolute}
use k_dash.Cache.{get_value, is_null}
use k_dash.Validation.Versions.{version_tuple, tuple_lt, maximum_version}

-- BASE_LIBRARIES
abbrev pub base_libraries : List String
base_libraries =
    "libc.so.6" ∷ "libm.so.6" ∷ "libdl.so.2" ∷ "libpthread.so.0" ∷ "librt.so.1" ∷ "libstdc++.so.6"
    ∷ "libgcc_s.so.1" ∷ []

-- MAX_GLIBC, MAX_GLIBCXX and MAX_CXXABI
abbrev pub max_glibc : String
max_glibc = "GLIBC_2.28"

abbrev pub max_glibcxx : String
max_glibcxx = "GLIBCXX_3.4.30"

abbrev pub max_cxxabi : String
max_cxxabi = "CXXABI_1.3.13"

-- An entry of the dynamic section.
pub data DynamicTag : Type 0 where
  needed : (soname : String) → DynamicTag
  run_path : DynamicTag
  other_tag : DynamicTag

-- What the program reads of an ELF file: the machine, the dynamic section, and the names in .gnu.version_r;
-- a section that is missing is empty.
pub record Elf : Type 0 where
  pub machine : String
  pub dynamic : List DynamicTag
  pub version_names : List String

-- `ELFFile(io.BytesIO(payload))`, `none` where it raises
abbrev pub ReadElf : Type 0
ReadElf = Bytes → Option Elf

abbrev pub elf_error : String → Error
elf_error message = k_dash_error artifact_integrity message "elf-validation"

abbrev pub build_error : String → Error
build_error message = k_dash_error artifact_integrity message "build-validation"

abbrev pub needed_of : List DynamicTag → List String
needed_of [] = []
needed_of (needed s ∷ tags) = s ∷ needed_of tags
needed_of (run_path ∷ tags) = needed_of tags
needed_of (other_tag ∷ tags) = needed_of tags

abbrev pub has_run_path : List DynamicTag → Bool
has_run_path [] = false
has_run_path (run_path ∷ tags) = true
has_run_path (needed s ∷ tags) = has_run_path tags
has_run_path (other_tag ∷ tags) = has_run_path tags

-- What `elf_required_versions` returns.
pub record RequiredVersions : Type 0 where
  pub glibc : Option String
  pub glibcxx : Option String
  pub cxxabi : Option String

unfoldable pub required_versions : Elf → RequiredVersions
required_versions elf = record {
  glibc = maximum_version elf.version_names "GLIBC_";
  glibcxx = maximum_version elf.version_names "GLIBCXX_";
  cxxabi = maximum_version elf.version_names "CXXABI_";
}

-- A text or None
abbrev pub optional_text : Option String → Value
optional_text none = null
optional_text (some s) = str s

-- `cxx_runtime_requirement`: the two versions of the dict, whose other fields are fixed.
abbrev pub cxx_runtime_requirement : Elf → Option (Option String × Option String)
cxx_runtime_requirement elf =
    if not (contains (needed_of elf.dynamic) "libstdc++.so.6")
      && not (contains (needed_of elf.dynamic) "libgcc_s.so.1")
    then none
    else some ((required_versions elf).glibcxx, (required_versions elf).cxxabi)

abbrev pub check_maximum : Option String → (maximum message : String) → Result (Unit {0})
check_maximum none maximum message = ok tt
check_maximum (some actual) maximum message =
    raise_if (tuple_lt (version_tuple maximum) (version_tuple actual)) (elf_error message)

module _ (lib : Libraries) where
  abbrev pub spec_of : Value → Result Fields
  spec_of (obj fs) = ok fs
  spec_of _ = err (build_error "BuildSpec/BuildKey mismatch")

  unfoldable pub validate_build_config :
      Fields → (expected_key expected_release : String) → Result (Unit {0})
  validate_build_config config expected_key expected_release = do
    spec ← spec_of (get_or_null "buildspec" config)
    key ← build_key lib (obj spec)
    raise_if
        (not (key == expected_key)
          || not (equals_text expected_key (get_or_null "build_key" config)))
        (build_error "BuildSpec/BuildKey mismatch")
    raise_if
        (not (equals_text expected_release (get_or_null "release_digest" spec))
          || not (equals_text expected_release (get_or_null "release_digest" config)))
        (build_error "Release digest mismatch")

-- `value.get(key, {})`
abbrev pub get_dict : String → Value → Result Value
get_dict key (obj fs) = ok (get_or key (obj end) fs)
get_dict key _ = raise_python attribute_error

-- The ELF machine of an architecture, if there is one; a list or a dict is no key of a dict.
abbrev pub machine_of : Value → Result (Option String)
machine_of (str a) =
    ok (
      if a == "x86_64"
      then some "EM_X86_64"
      else if a == "aarch64"
      then some "EM_AARCH64"
      else none)
machine_of (arr vs) = raise_python type_error
machine_of (obj fs) = raise_python type_error
machine_of _ = ok none

abbrev pub differs : Option String → (machine : String) → Bool
differs none machine = false
differs (some expected) machine = not (machine == expected)

-- The texts among the declared sonames; what is no text is no name of a needed library.
abbrev pub add_soname : Value → Result (List String) → Result (List String)
add_soname (str s) rest = rest >>= λ names. ok (s ∷ names)
add_soname (arr vs) rest = raise_python type_error
add_soname (obj fs) rest = raise_python type_error
add_soname _ rest = rest

abbrev pub sonames : Items → Result (List String)
sonames nil = ok []
sonames (cons (obj fs) vs) = add_soname (get_or_null "soname" fs) (sonames vs)
sonames (cons v vs) = raise_python attribute_error

-- `{entry.get("soname") for entry in value}`: the members of a text and the keys of a dict have no `get`.
abbrev pub declared_of : Value → Result (List String)
declared_of (arr vs) = sonames vs
declared_of (obj end) = ok []
declared_of (obj _) = raise_python attribute_error
declared_of (str s) = if s == "" then ok [] else raise_python attribute_error
declared_of _ = raise_python type_error

abbrev pub has_absolute : List String → Bool
has_absolute [] = false
has_absolute (s ∷ names) = is_absolute s || has_absolute names

abbrev pub is_allowed : (declared : List String) → String → Bool
is_allowed declared s =
    contains base_libraries s
    || contains declared s
    || starts_with s "libtvm_ffi.so"
    || starts_with s "ld-linux"

abbrev pub all_allowed : (declared : List String) → List String → Bool
all_allowed declared [] = true
all_allowed declared (s ∷ names) = is_allowed declared s && all_allowed declared names

abbrev pub count_fields : Fields → ℕ
count_fields end = 0
count_fields (field k v fs) = suc (count_fields fs)
count_fields (odd v fs) = suc (count_fields fs)

abbrev pub equals_optional : Option String → Option Value → Bool
equals_optional expected none = false
equals_optional none (some v) = is_null v
equals_optional (some s) (some v) = equals_text s v

-- `inferred_cxx == recorded_cxx`
abbrev pub equals_requirement : Option (Option String × Option String) → Value → Bool
equals_requirement none v = is_null v
equals_requirement (some (glibcxx, cxxabi)) (obj fs) =
    nat_eq (count_fields fs) 5
    && equals_text "libstdc++.so.6" (get_or_null "soname" fs)
    && equals_optional glibcxx (get_field "required_glibcxx" fs)
    && equals_optional cxxabi (get_field "required_cxxabi" fs)
    && equals_one (get_or_null "gcc_cxx11_abi" fs)
    && equals_text "libgcc_s.so.1" (get_or_null "unwind_soname" fs)
equals_requirement (some r) _ = false

abbrev pub readable : Option Elf → Result Elf
readable none = err (elf_error "kernel.so is not a readable ELF")
readable (some elf) = ok elf

-- The three ceilings
unfoldable pub check_baseline : RequiredVersions → Result (Unit {0})
check_baseline v = do
  check_maximum v.glibc max_glibc "GLIBC requirement exceeds the runtime baseline"
  check_maximum v.glibcxx max_glibcxx "GLIBCXX requirement exceeds the runtime baseline"
  check_maximum v.cxxabi max_cxxabi "CXXABI requirement exceeds the runtime baseline"

abbrev pub baseline_if : (enforce : Bool) → RequiredVersions → Result (Unit {0})
baseline_if true v = check_baseline v
baseline_if false v = ok tt

-- The machine that the config's target asks for
unfoldable pub expected_machine : Fields → Result (Option String)
expected_machine config = do
  spec ← get_dict "buildspec" (obj config)
  target ← get_dict "target" spec
  arch ← get_value "arch" target
  machine_of arch

-- The libraries that are needed
unfoldable pub check_libraries : Elf → Fields → Result (Unit {0})
check_libraries elf config = do
  declared ← declared_of (get_or "host_dependencies" (arr nil) config)
  raise_if (has_absolute (needed_of elf.dynamic))
      (elf_error "DT_NEEDED must contain SONAMEs, not absolute paths")
  raise_if (not (all_allowed declared (needed_of elf.dynamic)))
      (elf_error "undeclared dynamic dependencies")

module _ (lib : Libraries) (read_elf : ReadElf) where
  unfoldable pub validate_kernel_so : Bytes → Fields → (enforce_baseline : Bool) → Result (Unit {0})
  unfolding expected_machine check_libraries check_baseline required_versions
  validate_kernel_so payload config enforce = do
    raise_if (not (equals_text (digest_bytes lib payload) (get_or_null "kernel_so_digest" config)))
        (elf_error "kernel.so digest mismatch")
    elf ← readable (read_elf payload)
    machine ← expected_machine config
    raise_if (differs machine elf.machine) (elf_error "ELF machine does not match TargetSpec")
    raise_if (has_run_path elf.dynamic) (elf_error "RPATH/RUNPATH is forbidden")
    check_libraries elf config
    baseline_if enforce (required_versions elf)
    raise_if
        (not (equals_requirement (cxx_runtime_requirement elf) (get_or_null "cxx_runtime" config)))
        (elf_error "C++ runtime requirement metadata mismatch")

-- `validate_tvm_ffi_runtime`
unfoldable pub validate_tvm_ffi_runtime : Fields → (installed_version : String) → Result (Unit {0})
validate_tvm_ffi_runtime config installed = do
  spec ← get_dict "buildspec" (obj config)
  target ← get_dict "target" spec
  required ← get_value "tvm_ffi" target
  raise_if (not (equals_text installed required)) (
      k_dash_error artifact_integrity "TVM-FFI runtime version does not match TargetSpec"
        "runtime-dependencies")
