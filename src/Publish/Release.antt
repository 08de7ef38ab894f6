-- ===== src/Publish/Release.antt =====
-- `publish_release`: everything is built and every registry is asked before the first push.
use k_dash.Base.{
  String, ◌<>◌, Bool, true, not, ◌&&◌, ◌||◌, Option, none, some, List, [], ◌∷◌, ◌==◌, if◌then◌else◌,
  Result, ok, raise_if, ◌>>=◌ as ◌>>=ᴿ◌, ◌>>◌ as ◌>>ᴿ◌, Error,
}
use k_dash.Base.Exec.{Exec, pure, lift, fail, ◌>>=◌, ◌>>◌, catch}
use k_dash.Json.{Value, obj}
use k_dash.External.{Libraries}
use k_dash.Model.{TargetSpec, RegistrySet, primary}
use k_dash.Canonical.{build_tag}
use k_dash.Config.{load_registry_set}
use k_dash.Target.{explicit_target}
use k_dash.Artifact.{Codec, BuildObjects, parse_json_blob, extract_binary_archive}
use k_dash.Oci.{Client}
use k_dash.Project.{Readers, load_project}
use k_dash.Project.Tree.{Entries, Fnmatch}
use k_dash.Project.Extract.{extract_source_archive, release_objects}
use k_dash.Cache.{Files, commit_build, commit_release, put_resolution}
use k_dash.Validation.{ReadElf}
use k_dash.Runtime.{State, is_dev}
use k_dash.Runtime.Materialize.{is_not_found, on_network, write_cache}
use k_dash.Api.{Surroundings}
use k_dash.Builder.Tree.{tree_of}
use k_dash.Publish.Versions.{validate_version}
use k_dash.Publish.Objects.{
  Clients, Builders, publish_error, publish_refusal, ArgsFile, CudaVersions, has_cuda, cuda_list,
  is_given, cc_or_empty, is_empty, Materialized, Published, put_text, load_args_files,
}
use k_dash.Publish.Builds.{no_progress, build_targets}

abbrev pub release_tag : (version : String) → String
release_tag version = "release-" <> version

abbrev pub bound_elsewhere : Error
bound_elsewhere = publish_refusal "immutable Version is already bound to a different Release"

abbrev pub not_reproducible : Error
not_reproducible = publish_refusal "BuildKey is bound to a non-reproducible artifact"

-- What is asked of `publish_release`
pub record ReleaseRequest : Type 0 where
  pub version : Value
  pub cuda : CudaVersions
  pub cc : Option String
  pub args_files : List ArgsFile
  pub builder_image : String
  pub tvm_ffi : String
  pub backend : String

-- What stands ready when everything is built
pub record Plan : Type 0 where
  pub version : String
  pub kernel : String
  pub registries : RegistrySet
  pub clients : List Client
  pub release : BuildObjects
  pub builds : List Materialized

module _ {W : Type 0} (clients : Clients W) where
  -- `[OCIClient(registry, manifest.name) for registry in registry_set.registries]`
  unfoldable pub open_all : (kernel : String) → RegistrySet → Result (List Client)
  open_all kernel [] = ok []
  open_all kernel (r ∷ rs) =
      clients.open_client r kernel >>=ᴿ λ c. open_all kernel rs >>=ᴿ λ cs. ok (c ∷ cs)

  -- `try: current, _, _ = client.get_manifest(tag) except ArtifactNotFound: …`
  abbrev pub bound_digest : Client → (tag : String) → Exec W (Option String)
  bound_digest c tag =
      catch (clients.get_manifest c tag >>= λ m. pure (some m.0))
        (λ e. if is_not_found e then pure none else fail e)

  abbrev pub same_or_none : (expected : String) → Option String → Bool
  same_or_none expected none = true
  same_or_none expected (some current) = current == expected

  -- `_check_release_binding`
  unfoldable pub check_release_binding : (version expected : String) → Client → Exec W (Unit {0})
  check_release_binding version expected c = do
    current ← bound_digest c (release_tag version)
    lift (raise_if (not (same_or_none expected current) && not (is_dev version)) bound_elsewhere)

  unfoldable pub check_builds : List Materialized → Client → Exec W (Unit {0})
  check_builds [] c = pure tt
  check_builds (m ∷ ms) c = lift (build_tag m.key) >>= λ tag. bound_digest c tag >>= λ actual.
      lift (raise_if (not (same_or_none m.digest actual)) not_reproducible) >>= λ _.
      check_builds ms c

  unfoldable pub check_all :
      (version expected : String) → List Materialized → List Client → Exec W (Unit {0})
  unfolding check_release_binding check_builds
  check_all version expected ms [] = pure tt
  check_all version expected ms (c ∷ cs) = check_release_binding version expected c >>= λ _.
      check_builds ms c >>= λ _. check_all version expected ms cs

  unfoldable pub push_builds :
      List Materialized → Client → List (String × String) → Exec W (List (String × String))
  push_builds [] c builds = pure builds
  push_builds (m ∷ ms) c builds = lift (build_tag m.key) >>= λ tag.
      clients.push c tag m.config_bytes (m.layer ∷ []) m.manifest_bytes >>= λ actual.
      lift (
        raise_if (not (actual == m.digest))
          (publish_refusal "registry changed Build manifest digest"))
      >>= λ _. push_builds ms c (put_text m.key actual builds)

  -- The builds and then the release, to one registry
  unfoldable pub push_client : Plan → Client → Published → Exec W Published
  unfolding push_builds
  push_client plan c results = do
    builds ← push_builds plan.builds c results.builds
    actual ←
        clients.push c (release_tag plan.version) plan.release.config_bytes
          (plan.release.layer ∷ []) plan.release.manifest_bytes
    lift (
        raise_if (not (actual == plan.release.digest))
          (publish_refusal "registry changed Release manifest digest"))
    pure
        (record results { builds = builds; registries = put_text c.name actual results.registries })

  unfoldable pub push_all : Plan → List Client → Published → Exec W Published
  unfolding push_client
  push_all plan [] results = pure results
  push_all plan (c ∷ cs) results = push_client plan c results >>= λ next. push_all plan cs next

-- Arguments and a target go together.
unfoldable pub check_arguments : ReleaseRequest → Result (Unit {0})
check_arguments q =
    raise_if (not (is_empty q.args_files) && (not (has_cuda q.cuda) || not (is_given q.cc)))
      (publish_error "AOT args require --cuda-version and --cc")
    >>ᴿ raise_if (is_empty q.args_files && (has_cuda q.cuda || is_given q.cc))
        (publish_error "AOT target is invalid without --aot-args")

module _ (around : Surroundings) where
  -- `[explicit_target(value, cc or "", tvm_ffi=tvm_ffi) for value in cuda_versions]`
  unfoldable pub targets_of : (cc tvm_ffi : String) → List String → Result (List TargetSpec)
  targets_of cc tvm_ffi [] = ok []
  targets_of cc tvm_ffi (value ∷ rest) = explicit_target around.host value cc tvm_ffi >>=ᴿ λ t.
      targets_of cc tvm_ffi rest >>=ᴿ λ ts. ok (t ∷ ts)

module _ {W : Type 0} (lib : Libraries) (rd : Readers) (fnmatch : Fnmatch) (files : Files)
    (codec : Codec) (read_elf : ReadElf) (builders : Builders W) (clients : Clients W)
    (around : Surroundings) where
  -- The builds of a release with files of arguments
  unfoldable pub build_all :
      ReleaseRequest → (schema : Value) → (release : BuildObjects) → Exec W (List Materialized)
  build_all q schema release = do
    lift (
        raise_if (is_empty (cuda_list q.cuda))
          (publish_error "AOT requires at least one CUDA target"))
    targets ← lift (targets_of around (cc_or_empty q.cc) q.tvm_ffi (cuda_list q.cuda))
    args ← lift (load_args_files lib rd q.args_files schema)
    source ← lift (extract_source_archive codec release.layer)
    done ←
        build_targets lib codec read_elf builders q.backend q.builder_image (tree_of source)
          release.digest targets args no_progress
    pure done.built

  abbrev pub build_if_asked :
      ReleaseRequest → (schema : Value) → (release : BuildObjects) → Exec W (List Materialized)
  build_if_asked q schema release =
      if is_empty q.args_files then pure [] else build_all q schema release

  -- Up to the last build
  unfoldable pub prepare : ReleaseRequest → (root : Entries) → Exec W Plan
  unfolding build_all check_arguments
  prepare q root = do
    lift (
        raise_if (not (q.backend == "docker") && not (q.backend == "nix"))
          (publish_error "unknown AOT backend"))
    version ← lift (validate_version q.version)
    (manifest, schema) ← lift (load_project lib rd root)
    lift (check_arguments q)
    registries ← lift (load_registry_set around.urlparse around.config_file)
    opened ← lift (open_all clients manifest.name registries)
    release ← lift (release_objects lib rd fnmatch codec root version)
    builds ← build_if_asked q (obj schema) release
    pure (record {
      version = version;
      kernel = manifest.name;
      registries = registries;
      clients = opened;
      release = release;
      builds = builds;
    })

  unfoldable pub commit_builds : List Materialized → Exec (State W) (Unit {0})
  commit_builds [] = pure tt
  commit_builds (m ∷ ms) = lift (parse_json_blob lib "publish-cache" m.config_bytes) >>= λ config.
      lift (extract_binary_archive codec m.layer) >>= λ kernel_so.
      write_cache (commit_build files lib m.key config kernel_so) >>= λ _. commit_builds ms

  -- What the cache keeps of a release that was pushed
  unfoldable pub commit_all : Plan → Exec (State W) (Unit {0})
  unfolding commit_builds
  commit_all plan = do
    commit_builds plan.builds
    write_cache
        (commit_release files lib codec plan.release.digest plan.release.config plan.release.layer)
    first ← lift (primary plan.registries)
    write_cache (put_resolution lib first.name plan.kernel plan.version plan.release.digest)

  abbrev pub no_results : Plan → Published
  no_results plan = record { release_digest = plan.release.digest; builds = []; registries = [] }

  unfoldable pub publish_release : ReleaseRequest → (root : Entries) → Exec (State W) Published
  unfolding prepare check_all push_all commit_all
  publish_release q root = do
    plan ← on_network (prepare q root)
    on_network (check_all clients plan.version plan.release.digest plan.builds plan.clients)
    results ← on_network (push_all clients plan plan.clients (no_results plan))
    commit_all plan
    pure results
