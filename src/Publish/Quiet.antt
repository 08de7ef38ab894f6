-- ===== src/Publish/Quiet.antt =====
-- Building and asking registries push nothing.
use k_dash.Base.{refl, String, not, ◌&&◌, none, some, List, [], ◌∷◌, ◌==◌, raise_if}
use k_dash.Base.Exec.{pure, lift, fail, ◌>>=◌, catch-Leaves, Leaves, bind-Leaves, choose-Leaves}
use k_dash.Json.{Value, obj}
use k_dash.External.{Libraries}
use k_dash.Model.{TargetSpec, target_dict, BuildSpec, build_spec}
use k_dash.Canonical.{spec_key, build_tag}
use k_dash.Config.{load_registry_set}
use k_dash.Artifact.{Codec, BuildObjects}
use k_dash.Oci.{Client}
use k_dash.Project.{Readers, load_project}
use k_dash.Project.Tree.{Entries, Fnmatch}
use k_dash.Project.Extract.{extract_source_archive, release_objects}
use k_dash.Cache.{Files}
use k_dash.Validation.{ReadElf}
use k_dash.Runtime.Materialize.{is_not_found}
use k_dash.Api.{Surroundings}
use k_dash.Builder.Tree.{tree_of}
use k_dash.Publish.Versions.{validate_version}
use k_dash.Publish.Objects.{
  Clients, Builders, cuda_list, cc_or_empty, is_empty, Materialized, load_args_files,
  checked_objects,
}
use k_dash.Publish.Builds.{
  Progress, no_progress, build_with, build_one, unless_seen, build_target, build_targets,
}
use k_dash.Publish.Release.{
  release_tag, ReleaseRequest, open_all, bound_digest, same_or_none, check_release_binding,
  check_builds, check_all, targets_of, build_all, build_if_asked, prepare, check_arguments,
}

-- Asking a registry and building leave what was pushed as it is.
pub record ReadsOnly {W : Type 0} {L : Type 0} (clients : Clients W) (builders : Builders W)
    (log : W → L) : Type 0 where
  pub asks : (c : Client) (tag : String) → Leaves log (clients.get_manifest c tag)
  pub docker_builds :
      (image : String) (source : Entries) (spec : BuildSpec)
      → Leaves log (builders.docker image source spec)
  pub nix_builds : (source : Entries) (spec : BuildSpec) → Leaves log (builders.nix source spec)

module _ {W : Type 0} {L : Type 0} (clients : Clients W) (builders : Builders W) (log : W → L)
    (laws : ReadsOnly clients builders log) where
  pub bound_digest-Leaves : (c : Client) (tag : String) → Leaves log (bound_digest clients c tag)
  bound_digest-Leaves c tag =
      catch-Leaves log (clients.get_manifest c tag >>= λ m. pure (some m.0)) _
        (bind-Leaves log (clients.get_manifest c tag) _ (laws.asks c tag) λ m s. refl)
        λ e. choose-Leaves log (is_not_found e) (pure none) (fail e) (λ s. refl) λ s. refl

  pub check_release_binding-Leaves :
      (version expected : String) (c : Client)
      → Leaves log (check_release_binding clients version expected c)
  unfolding check_release_binding
  check_release_binding-Leaves version expected c =
      bind-Leaves log (bound_digest clients c (release_tag version)) _
        (bound_digest-Leaves c (release_tag version)) λ current s. refl

  pub check_builds-Leaves :
      (ms : List Materialized) (c : Client) → Leaves log (check_builds clients ms c)
  unfolding check_builds
  check_builds-Leaves [] c = λ s. refl
  check_builds-Leaves (m ∷ ms) c =
      bind-Leaves log (lift (build_tag m.key)) _ (λ s. refl)
        λ tag. bind-Leaves log (bound_digest clients c tag) _ (bound_digest-Leaves c tag) λ actual.
          bind-Leaves log (lift (raise_if (not (same_or_none clients m.digest actual)) _)) _
            (λ s. refl) λ _. check_builds-Leaves ms c

  pub check_all-Leaves :
      (version expected : String) (ms : List Materialized) (cs : List Client)
      → Leaves log (check_all clients version expected ms cs)
  unfolding check_all
  check_all-Leaves version expected ms [] = λ s. refl
  check_all-Leaves version expected ms (c ∷ cs) =
      bind-Leaves log (check_release_binding clients version expected c) _
        (check_release_binding-Leaves version expected c)
        λ _.
          bind-Leaves log (check_builds clients ms c) _ (check_builds-Leaves ms c)
            λ _. check_all-Leaves version expected ms cs

  module _ (lib : Libraries) (codec : Codec) (read_elf : ReadElf) (backend image : String)
      (source : Entries) (digest : String) where
    build_one-Leaves :
        (spec : BuildSpec) (key : String) (p : Progress)
        → Leaves log (build_one lib codec read_elf builders backend image source digest spec key p)
    build_one-Leaves spec key p =
        bind-Leaves log (build_with lib codec read_elf builders backend image source digest spec) _
          (choose-Leaves log (backend == "nix") _ _ (laws.nix_builds source spec)
            (laws.docker_builds image source spec))
          λ made.
            bind-Leaves log (lift (checked_objects lib codec read_elf spec made.0 made.1)) _
              (λ s. refl) λ o s. refl

    build_target-Leaves :
        (target : TargetSpec) (args : List Value) (p : Progress)
        → Leaves log
            (build_target lib codec read_elf builders backend image source digest target args p)
    unfolding build_target
    build_target-Leaves target [] p = λ s. refl
    build_target-Leaves target (a ∷ args) p =
        let spec = build_spec digest a (target_dict target) in
        bind-Leaves log (lift (spec_key lib spec)) _ (λ s. refl)
          λ key.
            bind-Leaves log
              (unless_seen lib codec read_elf builders backend image source digest spec key p) _
              (choose-Leaves log _ (pure p) _ (λ s. refl) (build_one-Leaves spec key p))
              λ q. build_target-Leaves target args q

    build_targets-Leaves :
        (targets : List TargetSpec) (args : List Value) (p : Progress)
        → Leaves log
            (build_targets lib codec read_elf builders backend image source digest targets args p)
    unfolding build_targets
    build_targets-Leaves [] args p = λ s. refl
    build_targets-Leaves (t ∷ targets) args p =
        bind-Leaves log
          (build_target lib codec read_elf builders backend image source digest t args p) _
          (build_target-Leaves t args p) λ q. build_targets-Leaves targets args q

  module _ (lib : Libraries) (rd : Readers) (fnmatch : Fnmatch) (files : Files) (codec : Codec)
      (read_elf : ReadElf) (around : Surroundings) where
    build_all-Leaves :
        (q : ReleaseRequest) (schema : Value) (release : BuildObjects)
        → Leaves log
            (build_all lib rd fnmatch files codec read_elf builders clients around q schema release)
    unfolding build_all
    build_all-Leaves q schema release =
        bind-Leaves log (lift (raise_if (is_empty (cuda_list q.cuda)) _)) _ (λ s. refl)
          λ _.
            bind-Leaves log
              (lift (targets_of around (cc_or_empty q.cc) q.tvm_ffi (cuda_list q.cuda))) _
              (λ s. refl)
              λ targets.
                bind-Leaves log (lift (load_args_files lib rd q.args_files schema)) _ (λ s. refl)
                  λ args.
                    bind-Leaves log (lift (extract_source_archive codec release.layer)) _
                      (λ s. refl)
                      λ source.
                        bind-Leaves log
                          (build_targets lib codec read_elf builders q.backend q.builder_image
                            (tree_of source) release.digest targets args no_progress)
                          _
                          (build_targets-Leaves lib codec read_elf q.backend q.builder_image
                            (tree_of source) release.digest targets args no_progress)
                          λ done s. refl

    pub prepare-Leaves :
        (q : ReleaseRequest) (root : Entries)
        → Leaves log (prepare lib rd fnmatch files codec read_elf builders clients around q root)
    unfolding prepare
    prepare-Leaves q root =
        bind-Leaves log
          (lift (raise_if (not (q.backend == "docker") && not (q.backend == "nix")) _)) _
          (λ s. refl)
          λ _.
            bind-Leaves log (lift (validate_version q.version)) _ (λ s. refl)
              λ version.
                bind-Leaves log (lift (load_project lib rd root)) _ (λ s. refl)
                  λ loaded.
                    bind-Leaves log (lift (check_arguments q)) _ (λ s. refl)
                      λ _.
                        bind-Leaves log
                          (lift (load_registry_set around.urlparse around.config_file)) _
                          (λ s. refl)
                          λ registries.
                            bind-Leaves log (lift (open_all clients loaded.0.name registries)) _
                              (λ s. refl)
                              λ opened.
                                bind-Leaves log
                                  (lift (release_objects lib rd fnmatch codec root version)) _
                                  (λ s. refl)
                                  λ release.
                                    bind-Leaves log
                                      (build_if_asked lib rd fnmatch files codec read_elf builders
                                        clients around q (obj loaded.1) release)
                                      _
                                      (choose-Leaves log (is_empty q.args_files) (pure []) _
                                        (λ s. refl) (build_all-Leaves q (obj loaded.1) release))
                                      λ builds s. refl
