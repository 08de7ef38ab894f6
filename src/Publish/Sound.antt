-- ===== src/Publish/Sound.antt =====
-- Building and publishing leave a sound cache.
use k_dash.Base.{String, Option, none, some, List, [], ◌∷◌, contains}
use k_dash.Json.{Value, obj}
use k_dash.External.{Libraries}
use k_dash.Model.{RegistrySet, TargetSpec, BuildSpec, build_spec, target_dict, primary}
use k_dash.Canonical.{spec_key}
use k_dash.Config.{load_registry_set}
use k_dash.Target.{explicit_target}
use k_dash.Artifact.{Codec, extract_binary_archive, parse_json_blob}
use k_dash.Project.{Readers, load_project}
use k_dash.Project.Tree.{Entries, Fnmatch}
use k_dash.Project.Extract.{extract_source_archive, release_objects}
use k_dash.Cache.{Files, CachedBuild, get_build, commit_build, commit_release, put_resolution}
use k_dash.Cache.Sound.{
  IsSound, IsSound-same, commit_build-IsSound, commit_release-IsSound, put_resolution-IsSound,
}
use k_dash.Validation.{ReadElf, get_dict}
use k_dash.Runtime.{Registries, is_dev, first_layer, resolve_release, pull_release}
use k_dash.Runtime.Materialize.{read_cache, write_cache}
use k_dash.Api.{Surroundings, args_schema}
use k_dash.Runtime.Sound.{KeepsSound, write_cache-KeepsSound, lift-KeepsSound, network-KeepsSound}
use k_dash.Runtime.Keeps.{bind-Keeps, choose-Keeps}
use k_dash.Api.Builds.{resolve_release-Keeps}
use k_dash.Builder.Tree.{tree_of}
use k_dash.Publish.Versions.{validate_version}
use k_dash.Publish.Objects.{
  Clients, Builders, Materialized, materialized_of, load_args_files, checked_objects,
}
use k_dash.Publish.Release.{
  ReleaseRequest, Plan, prepare, check_all, push_all, no_results, commit_builds, commit_all,
  publish_release,
}
use k_dash.Publish.Local.{
  LocalRequest, LocalBuild, build_from_root, cached_or_built, build_key_once, build_each,
  args_or_defaults, local_build,
}
use k_dash.Publish.Addition.{
  AdditionRequest, reference_text, first_args, add_to_all, check_moved, publish_build,
}

module _ {W : Type 0} (lib : Libraries) (rd : Readers) (fnmatch : Fnmatch) (files : Files)
    (codec : Codec) (read_elf : ReadElf) (builders : Builders W) (around : Surroundings) where
  module _ (q : LocalRequest) (root : Entries) (digest : String) where
    cached_or_built-KeepsSound :
        (spec : BuildSpec) (key : String) (o : Option CachedBuild)
        → KeepsSound (
            cached_or_built lib rd fnmatch files codec read_elf builders around q root digest spec
              key o)
    cached_or_built-KeepsSound spec key (some (config, kernel_so)) =
        lift-KeepsSound (get_dict "provenance" config) _ λ provenance s i. i
    cached_or_built-KeepsSound spec key none =
        network-KeepsSound
          (build_from_root lib rd fnmatch files codec read_elf builders around q root digest spec) _
          λ made.
            lift-KeepsSound (checked_objects lib codec read_elf spec made.0 made.1) _ λ objects.
              bind-Keeps IsSound (write_cache (commit_build files lib key objects.config made.0)) _
                (write_cache-KeepsSound (commit_build files lib key objects.config made.0)
                  λ c d. commit_build-IsSound files lib key objects.config made.0 c)
                λ _ s i. i

    build_key_once-KeepsSound :
        (spec : BuildSpec) (key : String) (results : List LocalBuild)
        → KeepsSound (
            build_key_once lib rd fnmatch files codec read_elf builders around q root digest spec
              key results)
    build_key_once-KeepsSound spec key results =
        bind-Keeps IsSound (read_cache (get_build files key)) _ (λ s i. i)
          λ cached.
            bind-Keeps IsSound
              (cached_or_built lib rd fnmatch files codec read_elf builders around q root digest
                spec key cached)
              _ (cached_or_built-KeepsSound spec key cached) λ result s i. i

    build_each-KeepsSound :
        (target : TargetSpec) (args : List Value) (seen : List String) (results : List LocalBuild)
        → KeepsSound (
            build_each lib rd fnmatch files codec read_elf builders around q root digest target args
              seen results)
    unfolding build_each
    build_each-KeepsSound target [] seen results = λ s i. i
    build_each-KeepsSound target (args ∷ rest) seen results =
        let spec = build_spec digest args (target_dict target) in
        lift-KeepsSound (spec_key lib spec) _ λ key.
          choose-Keeps IsSound (contains seen key) _ _
            (build_each-KeepsSound target rest seen results)
            (bind-Keeps IsSound
              (build_key_once lib rd fnmatch files codec read_elf builders around q root digest spec
                key results)
              _ (build_key_once-KeepsSound spec key results)
              λ more. build_each-KeepsSound target rest (key ∷ seen) more)

  pub local_build-KeepsSound :
      (q : LocalRequest) (root : Entries)
      → KeepsSound (local_build lib rd fnmatch files codec read_elf builders around q root)
  unfolding local_build
  local_build-KeepsSound q root = lift-KeepsSound (validate_version q.version) _ λ version.
      lift-KeepsSound (load_project lib rd root) _ λ project.
        lift-KeepsSound (release_objects lib rd fnmatch codec root version) _ λ release.
          lift-KeepsSound (explicit_target around.host q.cuda q.cc q.tvm_ffi) _ λ target.
            lift-KeepsSound
              (args_or_defaults lib rd fnmatch files codec read_elf builders around q.args_files
                (obj project.1))
              _ λ args. build_each-KeepsSound q root release.digest target args [] []

module _ {W : Type 0} (lib : Libraries) (rd : Readers) (fnmatch : Fnmatch) (files : Files)
    (codec : Codec) (read_elf : ReadElf) (builders : Builders W) (clients : Clients W)
    (around : Surroundings) where
  commit_builds-KeepsSound :
      (ms : List Materialized)
      → KeepsSound (commit_builds lib rd fnmatch files codec read_elf builders clients around ms)
  unfolding commit_builds
  commit_builds-KeepsSound [] = λ s i. i
  commit_builds-KeepsSound (m ∷ ms) =
      lift-KeepsSound (parse_json_blob lib "publish-cache" m.config_bytes) _ λ config.
        lift-KeepsSound (extract_binary_archive codec m.layer) _ λ kernel_so.
          bind-Keeps IsSound (write_cache (commit_build files lib m.key config kernel_so)) _
            (write_cache-KeepsSound (commit_build files lib m.key config kernel_so)
              λ c d. commit_build-IsSound files lib m.key config kernel_so c)
            λ _. commit_builds-KeepsSound ms

  commit_all-KeepsSound :
      (plan : Plan)
      → KeepsSound (commit_all lib rd fnmatch files codec read_elf builders clients around plan)
  unfolding commit_all
  commit_all-KeepsSound plan =
      bind-Keeps IsSound
        (commit_builds lib rd fnmatch files codec read_elf builders clients around plan.builds) _
        (commit_builds-KeepsSound plan.builds)
        λ _.
          bind-Keeps IsSound
            (write_cache (
              commit_release files lib codec plan.release.digest plan.release.config
                plan.release.layer))
            _
            (write_cache-KeepsSound _ λ c d.
              commit_release-IsSound files lib codec plan.release.digest plan.release.config
                plan.release.layer c)
            λ _. lift-KeepsSound (primary plan.registries) _ λ first.
              write_cache-KeepsSound
                (put_resolution lib first.name plan.kernel plan.version plan.release.digest)
                λ c d.
                  put_resolution-IsSound lib first.name plan.kernel plan.version plan.release.digest
                    c

  pub publish_release-KeepsSound :
      (q : ReleaseRequest) (root : Entries)
      → KeepsSound
          (publish_release lib rd fnmatch files codec read_elf builders clients around q root)
  unfolding publish_release
  publish_release-KeepsSound q root =
      network-KeepsSound
        (prepare lib rd fnmatch files codec read_elf builders clients around q root) _
        λ plan.
          network-KeepsSound
            (check_all clients plan.version plan.release.digest plan.builds plan.clients) _
            λ _.
              network-KeepsSound
                (push_all clients plan plan.clients
                  (no_results lib rd fnmatch files codec read_elf builders clients around plan))
                _
                λ results.
                  bind-Keeps IsSound
                    (commit_all lib rd fnmatch files codec read_elf builders clients around plan) _
                    (commit_all-KeepsSound plan) λ _ s i. i

  module _ (net : Registries W) where
    check_moved-KeepsSound :
        (registries : RegistrySet) (kernel version digest : String)
        → KeepsSound (
            check_moved lib rd fnmatch files codec read_elf builders clients net around registries
              kernel version digest)
    check_moved-KeepsSound registries kernel version digest =
        choose-Keeps IsSound (is_dev version) _ _
          (bind-Keeps IsSound
            (resolve_release lib files net kernel version around.offline registries) _
            (resolve_release-Keeps IsSound IsSound-same lib files net kernel version around.offline
              registries)
            λ found s i. i)
          λ s i. i

    pub publish_build-KeepsSound :
        (q : AdditionRequest) (root : Entries)
        → KeepsSound
            (publish_build lib rd fnmatch files codec read_elf builders clients net around q root)
    unfolding publish_build
    publish_build-KeepsSound q root = lift-KeepsSound (validate_version q.version) _ λ version.
        lift-KeepsSound (load_project lib rd root) _ λ project.
          lift-KeepsSound (load_registry_set around.urlparse around.config_file) _ λ registries.
            bind-Keeps IsSound
              (resolve_release lib files net project.0.name version around.offline registries) _
              (resolve_release-Keeps IsSound IsSound-same lib files net project.0.name version
                around.offline registries)
              λ found. lift-KeepsSound (reference_text found.0) _ λ digest.
                network-KeepsSound (pull_release lib net found.1 project.0.name digest) _ λ release.
                  lift-KeepsSound (args_schema (obj release.config)) _ λ schema.
                    lift-KeepsSound (load_args_files lib rd (q.args_file ∷ []) schema) _ λ values.
                      lift-KeepsSound (first_args values) _ λ args.
                        lift-KeepsSound (explicit_target around.host q.cuda q.cc q.tvm_ffi) _
                          λ target.
                            let spec = build_spec digest args (target_dict target) in
                            lift-KeepsSound (spec_key lib spec) _ λ key.
                              lift-KeepsSound (first_layer release.layers) _ λ layer.
                                lift-KeepsSound (extract_source_archive codec layer) _ λ source.
                                  network-KeepsSound
                                    (builders.docker q.builder_image (tree_of source) spec) _
                                    λ made.
                                      lift-KeepsSound
                                        (checked_objects lib codec read_elf spec made.0 made.1) _
                                        λ objects.
                                          bind-Keeps IsSound
                                            (check_moved lib rd fnmatch files codec read_elf
                                              builders clients net around registries project.0.name
                                              version digest)
                                            _
                                            (check_moved-KeepsSound registries project.0.name
                                              version digest)
                                            λ _.
                                              network-KeepsSound
                                                (add_to_all clients project.0.name
                                                  (materialized_of key objects) registries [])
                                                _ λ results s i. i
