-- ===== src/Tests/Jit.antt =====
-- A build that is made offline, from the sources in the cache.
use k_dash.Base.{ℕ, ◌≡◌, refl, String, true, none, some, Option, List, [], ◌∷◌, ok, Result}
use k_dash.Json.{Value, null, str, arr, obj, end, Fields, fields, items}
use k_dash.Model.{TargetSpec, target_dict, BuildSpec, build_spec, default_libc}
use k_dash.Cache.{Cache, Files, empty_cache}
use k_dash.Validation.{Elf, ReadElf, needed}
use k_dash.Runtime.{State}
use k_dash.Runtime.Materialize.{LocalJit, local_config, build_locally, materialize}
use k_dash.Runtime.Materialize.Local.{NeedsBaseOnly, build_locally-NeedsBaseOnly}
use k_dash.Runtime.Materialize.Vetted.{AllVetted, materialize-AllVetted}
use k_dash.Tests.Fixtures.{libraries, codec}
use k_dash.Tests.Network.{registry, registries, connected}

abbrev pub elf : Elf
elf = record {
  machine = "EM_X86_64";
  dynamic = needed "libc.so.6" ∷ [];
  version_names = "GLIBC_2.2.5" ∷ [];
}

abbrev pub read_elf : ReadElf
read_elf = λ payload. some elf

abbrev pub jit : LocalJit
jit = λ source spec. ok (1 ∷ [], null)

-- The config of a release
abbrev pub files : Files
files = record {
  read_json =
      λ bytes. ok (obj (fields (("source", obj (fields (("digest", str "sha256:i,") ∷ []))) ∷ [])));
  reports_exists = true;
}

abbrev start : State ℕ
start = record {
  cache = record empty_cache {
    releases =
        ("iii,", record { config = some (1 ∷ []); archive = some []; source = some [] }) ∷ [];
  };
  world = 0;
}

abbrev target : TargetSpec
target = record {
  os = "linux";
  arch = "x86_64";
  cuda = "12.4";
  cc = "sm_90a";
  libc = default_libc;
  tvm_ffi = "0.1.13.post3";
}

materialized :
    (materialize libraries files codec read_elf jit connected true registries
      (registry "main" true)
      "owner/axpy"
      "sha256:iii,"
      (obj end)
      target
      start).0
    ≡ ok ("sha256:i,ii,", "i,ii,")
unfolding materialize k_dash.Canonical.build_key k_dash.Cache.get_build k_dash.Cache.get_release
    k_dash.Base.Text.strip_prefix k_dash.Json.get_field k_dash.Validation.validate_kernel_so
    k_dash.Validation.Versions.maximum_version k_dash.Base.Decimal.take_digits
    k_dash.Validation.Versions.tuple_lt k_dash.Validation.Versions.version_tuple
    k_dash.Base.Decimal.number_from k_dash.Cache.commit_build
materialized = refl

materialize-AllVetted_example :
    AllVetted libraries read_elf
      (materialize libraries files codec read_elf jit connected true registries
        (registry "main" true)
        "owner/axpy"
        "sha256:iii,"
        (obj end)
        target
        start).1.cache
materialize-AllVetted_example =
    materialize-AllVetted libraries files codec read_elf jit connected true registries
      (registry "main" true) "owner/axpy" "sha256:iii," (obj end) target start tt

abbrev spec : BuildSpec
spec = build_spec "sha256:iii," (obj end) (target_dict target)

abbrev config : Fields
config =
    local_config libraries files codec read_elf jit connected spec "sha256:i,ii," null null (1 ∷ [])

built :
    build_locally libraries files codec read_elf jit connected spec "sha256:i,ii," [] start
    ≡ (ok (config, 1 ∷ []), start)
unfolding build_locally k_dash.Base.Text.strip_prefix k_dash.Json.get_field
    k_dash.Validation.validate_kernel_so k_dash.Validation.Versions.maximum_version
    k_dash.Base.Decimal.take_digits k_dash.Validation.Versions.tuple_lt
    k_dash.Validation.Versions.version_tuple k_dash.Base.Decimal.number_from
built = refl

build_locally-NeedsBaseOnly_example : NeedsBaseOnly read_elf (1 ∷ [])
build_locally-NeedsBaseOnly_example =
    build_locally-NeedsBaseOnly libraries files codec read_elf jit connected spec "sha256:i,ii," []
      start start config (1 ∷ []) built
