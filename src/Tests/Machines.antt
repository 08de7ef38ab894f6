-- ===== src/Tests/Machines.antt =====
-- Machines with a GPU, and a configuration of two registries.
use k_dash.Base.{
  ℕ, ◌≡◌, ◌<◌, refl, sym, subst, ok_injective, String, true, false, none, some, List, [], ◌∷◌, map,
  IsDistinct, ok, Result, arith, ap,
}
use k_dash.Json.{Value, int, str, bool, arr, obj, fields, items}
use k_dash.Json.Numbers.{pos}
use k_dash.Model.{TargetSpec, default_libc, RegistryConfig, RegistrySet}
use k_dash.Config.{Url, load_registry_set}
use k_dash.Config.Valid.{IsLoaded, load_registry_set-IsValid}
use k_dash.Target.{
  normalize_cuda_version, normalize_cc, Torch, Host, explicit_target, detect_target,
}
use k_dash.Target.Laws.{normalize_cuda_version_idem, normalize_cc_idem}
use k_dash.Target.Agreement.{explicit_target-detect_target}

cuda_normal : normalize_cuda_version " 12.04.1" ≡ ok "12.4"
unfolding normalize_cuda_version k_dash.Base.Decimal.take_digits k_dash.Base.Text.strip_right
    k_dash.Base.Text.strip_left k_dash.Base.Decimal.decimal_from k_dash.Base.Decimal.number_from
cuda_normal = refl

cuda_again : normalize_cuda_version "12.4" ≡ ok "12.4"
cuda_again = normalize_cuda_version_idem " 12.04.1" {r = "12.4"} cuda_normal

cc_normal : normalize_cc "sm_090a" ≡ ok "sm_90a"
unfolding normalize_cc k_dash.Base.Text.strip_prefix k_dash.Base.Decimal.take_digits
    k_dash.Base.Decimal.number_from k_dash.Base.Decimal.decimal_from
cc_normal = refl

cc_again : normalize_cc "sm_90a" ≡ ok "sm_90a"
cc_again = normalize_cc_idem "sm_090a" {r = "sm_90a"} cc_normal

abbrev pub hopper : Torch
hopper = record { cuda = some "12.8"; is_available = true; capability = (9, 0) }

abbrev pub machine : Host
machine = record {
  target_arch = none;
  system = "Linux";
  machine = "x86_64";
  nvcc = some "Cuda compilation tools, release 12.4, V12.4.131";
  torch = some hopper;
  tvm_ffi = some "0.1.13.post3";
}

abbrev target : TargetSpec
target = record {
  os = "linux";
  arch = "x86_64";
  cuda = "12.4";
  cc = "sm_90a";
  libc = default_libc;
  tvm_ffi = "0.1.13.post3";
}

detected : detect_target machine ≡ ok target
unfolding detect_target k_dash.Base.Text.strip_prefix k_dash.Base.Text.strip_left
    k_dash.Base.Decimal.take_digits k_dash.Base.Text.strip_right k_dash.Base.Decimal.decimal_from
    k_dash.Base.Decimal.number_from
detected = refl

small : (torch : Torch) → machine.torch ≡ some torch → torch.capability.1 < 10
small torch h =
    let e : hopper ≡ torch = cc in subst (λ (t : Torch). t.capability.1 < 10) e (omega arith)

explicit_target-detect_target_example :
    explicit_target (record machine { target_arch = none }) "12.4" "sm_90a" "0.1.13.post3"
    ≡ ok target
explicit_target-detect_target_example =
    explicit_target-detect_target machine {t = target} small detected

abbrev pub urlparse : String → Result Url
urlparse url = ok (record { scheme = "https"; netloc = "registry"; path = "" })

abbrev pub entry_of : (name url : String) → Value → Value
entry_of name url is_primary = obj (
    fields (
      ("name", str name)
      ∷ ("url", str url)
      ∷ ("repository_prefix", str "/kernels/")
      ∷ ("primary", is_primary)
      ∷ []))

abbrev pub file : Value
file = obj (
    fields (
      ("schema_version", int (pos 1))
      ∷ (
        "registries",
        arr (
            items (
              entry_of "mirror" "https://mirror/" (bool false)
              ∷ entry_of "main" "https://registry" (bool true)
              ∷ [])),
      )
      ∷ []))

abbrev config_of : (name url : String) → RegistryConfig
config_of name url = record {
  name = name;
  url = url;
  repository_prefix = "kernels";
  primary = false;
  verify_tls = true;
  ca_bundle = Value.null;
  auth = obj (fields (("type", str "anonymous") ∷ []));
}

abbrev registries : RegistrySet
registries =
    config_of "mirror" "https://mirror"
    ∷ record (config_of "main" "https://registry") { primary = true }
    ∷ []

loaded : load_registry_set urlparse (some (ok file)) ≡ ok registries
unfolding load_registry_set k_dash.Json.get_field k_dash.Base.Text.strip_right
    k_dash.Base.Text.strip_left
loaded = refl

load_registry_set-IsValid_example : IsLoaded (some (ok file)) registries
load_registry_set-IsValid_example =
    load_registry_set-IsValid urlparse (some (ok file)) {rs = registries} loaded
