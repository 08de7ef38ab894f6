-- ===== src/Model.antt =====
-- model.py: the protocol dataclasses.
use k_dash.Base.{
  String, Bool, Option, List, [], ◌∷◌, not, keep, if◌then◌else◌, Result, ok, stop_iteration,
  raise_python,
}
use k_dash.Base.{ℕ}
use k_dash.Json.{Value, obj, str, int, fields}
use k_dash.Json.Numbers.{pos}

-- DEFAULT_TVM_FFI_VERSION
abbrev pub default_tvm_ffi_version : String
default_tvm_ffi_version = "0.1.13.post3"

pub record TargetSpec : Type 0 where
  pub os : String
  pub arch : String
  pub cuda : String
  pub cc : String
  pub libc : String
  pub tvm_ffi : String

-- The default of the field `libc`.
abbrev pub default_libc : String
default_libc = "manylinux_2_28"

-- TargetSpec.as_dict
abbrev pub target_dict : TargetSpec → Value
target_dict t = obj (
    fields (
      ("os", str t.os)
      ∷ ("arch", str t.arch)
      ∷ ("cuda", str t.cuda)
      ∷ ("cc", str t.cc)
      ∷ ("libc", str t.libc)
      ∷ ("tvm_ffi", str t.tvm_ffi)
      ∷ []))

pub record BuildSpec : Type 0 where
  pub release_digest : String
  pub args : Value
  pub target : Value
  pub buildspec_version : ℕ

-- A BuildSpec with the default version.
abbrev pub build_spec : String → Value → Value → BuildSpec
build_spec digest args target = record {
  release_digest = digest;
  args = args;
  target = target;
  buildspec_version = 1;
}

-- BuildSpec.as_dict
abbrev pub spec_dict : BuildSpec → Value
spec_dict s = obj (
    fields (
      ("buildspec_version", int (pos s.buildspec_version))
      ∷ ("release_digest", str s.release_digest)
      ∷ ("args", s.args)
      ∷ ("target", s.target)
      ∷ []))

pub record ProjectManifest : Type 0 where
  pub name : String
  pub format_version : ℕ
  pub build_api : ℕ
  pub license : Option String

-- `ca_bundle` and `auth` keep what the configuration file holds.
pub record RegistryConfig : Type 0 where
  pub name : String
  pub url : String
  pub repository_prefix : String
  pub primary : Bool
  pub verify_tls : Bool
  pub ca_bundle : Value
  pub auth : Value

abbrev pub RegistrySet : Type 0
RegistrySet = List RegistryConfig

-- RegistrySet.primary; `next` of an empty generator raises.
unfoldable pub primary : RegistrySet → Result RegistryConfig
primary [] = raise_python stop_iteration
primary (r ∷ rs) = let rest = primary rs in if r.primary then ok r else rest

-- RegistrySet.secondaries
unfoldable pub secondaries : RegistrySet → List RegistryConfig
secondaries rs = keep (λ r. not r.primary) rs
