-- ===== src/Tests/Publishing.antt =====
-- A release of one build, published to two registries that know nothing yet.
use k_dash.Base.{
  ℕ, ◌≡◌, ◌≢◌, ◌⊎◌, refl, ap, sym, String, ◌<>◌, Bool, true, false, none, some, List, [], ◌∷◌, ◌++◌,
  All, IsDistinct, ok, err, Result, inr, arith,
}
use k_dash.Json.{Value, null, int, str, arr, obj, end, Fields, field, fields}
use k_dash.Json.Numbers.{pos}
use k_dash.External.{Libraries, complete}
use k_dash.Model.{RegistryConfig, TargetSpec, default_libc, default_tvm_ffi_version}
use k_dash.Project.{Readers}
use k_dash.Project.Tree.{Node, file, Entries, nil, entry, Fnmatch}
use k_dash.Cache.{Cache, Files, empty_cache}
use k_dash.Validation.{ReadElf}
use k_dash.Runtime.{State}
use k_dash.Api.{Surroundings}
use k_dash.Builder.{default_builder_image}
use k_dash.Publish.Versions.{validate_version, IsVersion, IsTag, validate_version_iff}
use k_dash.Publish.Objects.{Clients, Builders, one_cuda, Published}
use k_dash.Publish.Builds.{Progress, no_progress, build_targets}
use k_dash.Publish.Release.{ReleaseRequest, Plan, publish_release}
use k_dash.Publish.Publishable.{IsPublishable, keys_of, build_targets-IsPublishable}
use k_dash.Publish.Quiet.{ReadsOnly}
use k_dash.Publish.Checked.{Checked, publish_release-Checked}
use k_dash.Publish.Pushes.{Pushed, Appends, pushes_of}
use k_dash.Publish.Reports.{Reports}
use k_dash.Publish.Plans.{IsPlan}
use k_dash.Publish.Complete.{IsRemembered, publish_release-pushes_of}
use k_dash.Tests.Fixtures.{hex_libraries, codec}
use k_dash.Tests.Jit.{read_elf}
use k_dash.Tests.Machines.{urlparse, file as config_file, machine}
use k_dash.Tests.Network.{absent}

validate_version_iff_example :
    (validate_version (str "1.0") ≡ ok "1.0"
      → (str "1.0" ≡ str "1.0") × IsVersion "1.0" × IsTag ("release-" <> "1.0"))
    × (IsVersion "1.0" → validate_version (str "1.0") ≡ ok "1.0")
validate_version_iff_example = validate_version_iff (str "1.0") "1.0"

-- Every JSON text is this dict.
abbrev pub dict : Fields
dict =
    field "build_key"
      (str "sha256:e3b0c44298fc1c149afbf4c8996fb92427ae41e4649b934ca495991b7852b855") end

abbrev pub publish_libraries : Libraries
publish_libraries = record hex_libraries { scan_json = λ content. complete (obj dict) }

abbrev pub readers : Readers
readers = record {
  decode = λ content. some "text";
  toml = λ text. some (
      fields (
        ("format-version", int (pos 1))
        ∷ ("name", str "owner/axpy")
        ∷ ("build-api", int (pos 1))
        ∷ []));
  splitlines = λ text. [];
}

abbrev pub matches_nothing : Fnmatch
matches_nothing = λ name pattern. false

abbrev pub plain : Node
plain = file false (7 ∷ [])

abbrev pub root : Entries
root = entry "k-dash.toml" plain (
    entry "README.md" plain (
      entry "build.nix" plain (
        entry "flake.nix" plain (
          entry "flake.lock" plain
            (entry "args.schema.json" plain (entry ".k-dash-ignore" plain nil))))))

abbrev pub store : Files
store = record { read_json = λ bytes. ok (obj dict); reports_exists = true }

abbrev pub digest : String
digest = "sha256:e3b0c44298fc1c149afbf4c8996fb92427ae41e4649b934ca495991b7852b855"

-- What was pushed is all that there is of the network.
abbrev pub clients : Clients (List Pushed)
clients = record {
  open_client = λ r kernel.
      ok (record { name = r.name; url = r.url; repository = kernel; basic_auth = none });
  get_manifest = λ c tag w. (err absent, w);
  push = λ c tag config layers manifest w.
      (ok digest, w ++ (record { registry = c.name; reference = tag; manifest = manifest } ∷ []));
}

abbrev pub builders : Builders (List Pushed)
builders = record {
  docker = λ image source spec w. (ok (1 ∷ [], null), w);
  nix = λ source spec w. (ok (1 ∷ [], null), w);
  jit = λ source spec w. (ok (1 ∷ [], null), w);
}

reads_only : ReadsOnly clients builders (λ w. w)
reads_only = record {
  asks = λ c tag w. refl;
  docker_builds = λ image source spec w. refl;
  nix_builds = λ source spec w. refl;
}

appends : Appends clients (λ w. w)
appends c tag config layers manifest w v d h = sym (ap (λ (x : Result String × List Pushed). x.1) h)

abbrev pub around : Surroundings
around = record {
  urlparse = urlparse;
  config_file = some (ok config_file);
  host = machine;
  offline = false;
}

abbrev pub request : ReleaseRequest
request = record {
  version = str "1.0";
  cuda = one_cuda "12.4";
  cc = some "sm_90a";
  args_files = some (8 ∷ []) ∷ [];
  builder_image = default_builder_image;
  tvm_ffi = default_tvm_ffi_version;
  backend = "docker";
}

abbrev pub start : State (List Pushed)
start = record { cache = empty_cache; world = [] }

published :
    (publish_release publish_libraries readers matches_nothing store codec read_elf builders clients
      around request root start).0
    ≡ ok (record {
      release_digest = digest;
      builds = (digest, digest) ∷ [];
      registries = ("mirror", digest) ∷ ("main", digest) ∷ [];
    })
unfolding publish_release validate_version k_dash.Project.load_project k_dash.Base.Text.strip_right
    k_dash.Base.Text.strip_left k_dash.Json.get_field k_dash.Project.Names.validate_kernel_name
    k_dash.Canonical.loads_no_duplicates k_dash.Config.load_registry_set
    k_dash.Publish.Release.open_all k_dash.Project.Extract.release_objects
    k_dash.Canonical.canonical_json k_dash.Json.set_field k_dash.Project.Tree.sort_files
    k_dash.Project.Tree.walk k_dash.Publish.Release.targets_of k_dash.Target.explicit_target
    k_dash.Base.Decimal.take_digits k_dash.Base.Text.strip_prefix k_dash.Base.Decimal.number_from
    k_dash.Publish.Objects.load_args_files k_dash.Canonical.normalize_args
    k_dash.Project.Extract.extract_source_archive build_targets k_dash.Canonical.build_key
    k_dash.Publish.Objects.checked_objects k_dash.Artifact.build_objects
    k_dash.Validation.Dependencies.infer_host_dependencies k_dash.Validation.validate_kernel_so
    k_dash.Validation.Versions.maximum_version k_dash.Validation.Versions.tuple_lt
    k_dash.Validation.Versions.version_tuple k_dash.Canonical.build_tag
    k_dash.Artifact.parse_json_blob k_dash.Artifact.extract_binary_archive k_dash.Cache.commit_build
    k_dash.Cache.commit_release k_dash.Model.primary k_dash.Cache.put_resolution
published = refl

abbrev result : Published
result = record {
  release_digest = digest;
  builds = (digest, digest) ∷ [];
  registries = ("mirror", digest) ∷ ("main", digest) ∷ [];
}

abbrev end_state : State (List Pushed)
end_state =
    (publish_release publish_libraries readers matches_nothing store codec read_elf builders clients
      around request root start).1

publish_release-pushes_of_example :
    (plan : Plan) × IsPlan publish_libraries readers matches_nothing codec read_elf clients around
      request root plan
    × (end_state.world ≡ [] ++ pushes_of plan plan.clients)
    × Reports plan plan.clients result
    × IsRemembered publish_libraries readers matches_nothing store codec read_elf builders clients
        around plan end_state.cache
publish_release-pushes_of_example =
    publish_release-pushes_of publish_libraries readers matches_nothing store codec read_elf
      builders clients around (λ w. w) request root start end_state result reads_only appends
      (ap (λ r. (r, end_state)) published)

publish_release-Checked_example :
    ((end_state.world ≡ [])
      × ((p : Published)
          → (publish_release publish_libraries readers matches_nothing store codec read_elf builders
              clients around request root start).0
            ≢ ok p))
    ⊎ Checked publish_libraries readers matches_nothing store codec read_elf builders clients around
        (λ w. w)
        reads_only
        request
        root
        []
publish_release-Checked_example =
    publish_release-Checked publish_libraries readers matches_nothing store codec read_elf builders
      clients around (λ w. w) reads_only request root start

abbrev target : TargetSpec
target = record {
  os = "linux";
  arch = "x86_64";
  cuda = "12.4";
  cc = "sm_90a";
  libc = default_libc;
  tvm_ffi = "0.1.13.post3";
}

abbrev progress : Result Progress × List Pushed
progress =
    build_targets publish_libraries codec read_elf builders "nix" default_builder_image root digest
      (target ∷ []) (obj end ∷ obj end ∷ []) no_progress []

abbrev built_of : Result Progress → Progress
built_of (ok q) = q
built_of (err e) = no_progress

-- The same arguments twice are one build.
all_built : progress ≡ (ok (built_of progress.0), [])
unfolding build_targets k_dash.Canonical.build_key k_dash.Publish.Objects.checked_objects
    k_dash.Artifact.build_objects k_dash.Validation.Dependencies.infer_host_dependencies
    k_dash.Validation.validate_kernel_so k_dash.Json.get_field k_dash.Base.Text.strip_prefix
    k_dash.Validation.Versions.maximum_version k_dash.Base.Decimal.take_digits
    k_dash.Validation.Versions.tuple_lt k_dash.Validation.Versions.version_tuple
    k_dash.Base.Decimal.number_from
all_built = refl

build_targets-IsPublishable_example :
    IsDistinct (keys_of (built_of progress.0).built)
    × All (IsPublishable publish_libraries codec read_elf digest) (built_of progress.0).built
build_targets-IsPublishable_example =
    build_targets-IsPublishable publish_libraries codec read_elf builders "nix"
      default_builder_image root digest (target ∷ []) (obj end ∷ obj end ∷ []) (built_of progress.0)
      [] [] all_built
