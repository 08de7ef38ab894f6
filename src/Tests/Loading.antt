-- ===== src/Tests/Loading.antt =====
-- A kernel that is loaded offline, from a release in the cache that was resolved before: it is built and
-- committed.
use k_dash.Base.{ℕ, suc, zero, true, none, some, ok, ◌≡◌, refl, String, List, [], ◌∷◌, err}
use k_dash.Json.{Value, null, str, arr, obj, nil, end, Fields, field, fields}
use k_dash.Cache.{Cache, Files, empty_cache}
use k_dash.Cache.Sound.{IsSound}
use k_dash.Runtime.{State, resolution_miss}
use k_dash.Runtime.Materialize.Vetted.{AllVetted}
use k_dash.Api.{Surroundings, get}
use k_dash.Api.Vetted.{get-AllVetted}
use k_dash.Api.Load.{Program, load}
use k_dash.Api.Sound.{load-IsSound}
use k_dash.Tests.Fixtures.{libraries, codec}
use k_dash.Tests.Machines.{urlparse, file, machine}
use k_dash.Tests.Network.{connected}
use k_dash.Tests.Jit.{read_elf, jit}
use k_dash.Tests.Starting.{linker, loader}

abbrev around : Surroundings
around = record {
  urlparse = urlparse;
  config_file = some (ok file);
  host = machine;
  offline = true;
}

-- What every file says: the resolution, the config of the release and the config of a build.
abbrev files : Files
files = record {
  read_json = λ bytes. ok (
      obj (
        fields (
          ("release_digest", str "sha256:iii,")
          ∷ ("source", obj (field "digest" (str "sha256:i,") end))
          ∷ ("args_schema", obj end)
          ∷ ("buildspec", obj (field "target" (obj (field "tvm_ffi" (str "0.1") end)) end))
          ∷ [])));
  reports_exists = true;
}

abbrev resolved : State ℕ
resolved = record {
  cache = record {
    releases =
        ("iii,", record { config = some (1 ∷ []); archive = some []; source = some [] }) ∷ [];
    builds = [];
    resolutions = ("main" ∷ "owner" ∷ "axpy" ∷ "1.0.json" ∷ [], 1 ∷ []) ∷ [];
  };
  world = 0;
}

abbrev with_build : Cache
with_build = record resolved.cache {
  builds = ("i,ii,", record { config = some (1 ∷ 2 ∷ []); kernel_so = some (1 ∷ []) }) ∷ [];
}

got :
    get libraries files codec read_elf jit connected around
      (str "owner/axpy")
      (str "1.0")
      null
      resolved
    ≡ (ok ("sha256:i,ii,", "i,ii,"), record resolved { cache = with_build })
unfolding get k_dash.Project.Names.validate_kernel_name k_dash.Config.load_registry_set
    k_dash.Json.get_field k_dash.Runtime.resolve_release k_dash.Model.primary
    k_dash.Cache.get_resolution k_dash.Base.Text.strip_prefix k_dash.Base.Text.replace_char
    k_dash.Cache.get_release k_dash.Canonical.normalize_args k_dash.Target.detect_target
    k_dash.Base.Text.strip_left k_dash.Base.Decimal.take_digits k_dash.Base.Text.strip_right
    k_dash.Runtime.Materialize.materialize k_dash.Canonical.build_key k_dash.Cache.get_build
    k_dash.Base.Decimal.decimal_from k_dash.Cache.commit_build k_dash.Canonical.canonical_json
    k_dash.Project.Extract.extract_source_archive k_dash.Runtime.Materialize.build_locally
    k_dash.Validation.Versions.maximum_version k_dash.Validation.Versions.tuple_lt
    k_dash.Validation.Versions.version_tuple k_dash.Validation.validate_kernel_so
    k_dash.Base.Decimal.number_from
got = refl

get-AllVetted_example :
    AllVetted libraries read_elf
      (get libraries files codec read_elf jit connected around
        (str "owner/axpy")
        (str "1.0")
        null
        resolved).1.cache
get-AllVetted_example =
    get-AllVetted libraries files codec read_elf jit connected around (str "owner/axpy") (str "1.0")
      null resolved tt

abbrev program : Program ℕ ℕ ℕ
program = record { inner = resolved; process = record { handles = []; inner = 0 }; modules = [] }

resolved-IsSound : IsSound resolved.cache
resolved-IsSound = record {
  distinct_builds = tt;
  distinct_releases = (refl, tt);
  whole_builds = tt;
  whole_releases = ((1 ∷ [], [], [], refl, refl, refl), tt);
}

loaded :
    load libraries files codec read_elf jit connected around linker loader
      (str "owner/axpy")
      (str "1.0")
      null
      program
    ≡ (
      ok 0,
      record {
        inner = record resolved { cache = with_build };
        process = record { handles = []; inner = 1 };
        modules = ("i,ii,", 0) ∷ [];
      },
    )
unfolding load get k_dash.Project.Names.validate_kernel_name k_dash.Config.load_registry_set
    k_dash.Json.get_field k_dash.Runtime.resolve_release k_dash.Model.primary
    k_dash.Cache.get_resolution k_dash.Base.Text.strip_prefix k_dash.Base.Text.replace_char
    k_dash.Cache.get_release k_dash.Canonical.normalize_args k_dash.Target.detect_target
    k_dash.Base.Text.strip_left k_dash.Base.Decimal.take_digits k_dash.Base.Text.strip_right
    k_dash.Runtime.Materialize.materialize k_dash.Canonical.build_key k_dash.Cache.get_build
    k_dash.Base.Decimal.decimal_from k_dash.Cache.commit_build k_dash.Canonical.canonical_json
    k_dash.Project.Extract.extract_source_archive k_dash.Runtime.Materialize.build_locally
    k_dash.Validation.Versions.maximum_version k_dash.Validation.Versions.tuple_lt
    k_dash.Validation.Versions.version_tuple k_dash.Validation.validate_kernel_so
    k_dash.Base.Decimal.number_from k_dash.Api.Load.load_path
    k_dash.Validation.validate_tvm_ffi_runtime
    k_dash.Validation.Host.Packages.validate_host_dependencies
    k_dash.Validation.Host.Cxx.validate_host_cxx_runtime
loaded = refl

load-IsSound_example :
    IsSound
      (load libraries files codec read_elf jit connected around linker loader
        (str "owner/axpy")
        (str "1.0")
        null
        program).1.inner.cache
load-IsSound_example =
    load-IsSound libraries files codec read_elf jit connected around linker loader
      (str "owner/axpy") (str "1.0") null program resolved-IsSound
