-- ===== src/Publish/Plans.antt =====
-- What `prepare` has established when it returns a plan.
use k_dash.Base.{
  ◌≡◌, ◌≢◌, refl, ◌⊎◌, inl, inr, raise_if-eq-ok, ap, subst, String, Bool, true, false, not, ◌&&◌,
  List, [], ◌∷◌, sym, ◌==◌, All, IsDistinct, Result, ok, raise_if, if◌then◌else◌, ok_injective,
}
use k_dash.Base.Exec.{pure, lift, on_run}
use k_dash.Json.{Value, obj, Fields}
use k_dash.Model.{TargetSpec, ProjectManifest}
use k_dash.Publish.Covered.{HasBuilds, build_targets-HasBuilds}
use k_dash.External.{Libraries}
use k_dash.Config.{load_registry_set}
use k_dash.Artifact.{Codec, BuildObjects}
use k_dash.Project.{Readers, load_project}
use k_dash.Project.Tree.{Entries, Fnmatch}
use k_dash.Project.Extract.{extract_source_archive, release_objects}
use k_dash.Cache.{Files}
use k_dash.Validation.{ReadElf}
use k_dash.Api.{Surroundings}
use k_dash.Builder.Tree.{tree_of}
use k_dash.Publish.Versions.{validate_version}
use k_dash.Publish.Objects.{
  Clients, Builders, cuda_list, cc_or_empty, is_empty, Materialized, load_args_files,
}
use k_dash.Publish.Builds.{no_progress, build_targets}
use k_dash.Publish.Release.{
  ReleaseRequest, Plan, open_all, targets_of, build_all, build_if_asked, prepare, check_arguments,
}
use k_dash.Publish.Publishable.{IsPublishable, keys_of, build_targets-IsPublishable}

-- Without files of arguments there is no build. With them there is one for each target of the request with
-- the content of each file, as the schema of the project completes it.
abbrev pub IsBuilt :
    Libraries
    → Readers
    → Surroundings
    → ReleaseRequest
    → (root : Entries) → (digest : String) → List Materialized
    → Type 0
IsBuilt lib rd around q root digest ms =
    ((q.args_files ≡ []) × (ms ≡ []))
    ⊎ ((manifest : ProjectManifest) × (schema : Fields) × (load_project lib rd root
          ≡ ok (manifest, schema))
        × (cuda_list q.cuda ≢ [])
        × (targets : List TargetSpec) × (targets_of around (cc_or_empty q.cc) q.tvm_ffi
              (cuda_list q.cuda)
            ≡ ok targets)
        × (args : List Value) × (load_args_files lib rd q.args_files (obj schema) ≡ ok args)
        × HasBuilds lib digest ms targets args)

-- What `prepare` has found and built.
pub record IsPlan {W : Type 0} (lib : Libraries) (rd : Readers) (fnmatch : Fnmatch) (codec : Codec)
    (read_elf : ReadElf) (clients : Clients W) (around : Surroundings) (q : ReleaseRequest)
    (root : Entries) (plan : Plan) : Type 0 where
  pub version_is : validate_version q.version ≡ ok plan.version
  pub registries_is : load_registry_set around.urlparse around.config_file ≡ ok plan.registries
  pub clients_are : open_all clients plan.kernel plan.registries ≡ ok plan.clients
  pub release_is : release_objects lib rd fnmatch codec root plan.version ≡ ok plan.release
  pub distinct : IsDistinct (keys_of plan.builds)
  pub publishable : All (IsPublishable lib codec read_elf plan.release.digest) plan.builds
  pub built : IsBuilt lib rd around q root plan.release.digest plan.builds

is_empty-true {ℓ} : {A : Type ℓ} (l : List A) → is_empty l ≡ true → l ≡ []
is_empty-true [] h = refl
is_empty-true (x ∷ l) h = absurd (cc)

is_empty-false {ℓ} : {A : Type ℓ} (l : List A) → is_empty l ≡ false → l ≢ []
is_empty-false l h e = cc

module _ {W : Type 0} (lib : Libraries) (rd : Readers) (fnmatch : Fnmatch) (files : Files)
    (codec : Codec) (read_elf : ReadElf) (builders : Builders W) (clients : Clients W)
    (around : Surroundings) where
  abbrev AreBuilds : (digest : String) → List Materialized → Type 0
  AreBuilds digest ms = IsDistinct (keys_of ms) × All (IsPublishable lib codec read_elf digest) ms

  -- The builds that are made when there are files of arguments
  abbrev AreMade :
      ReleaseRequest → (schema : Value) → (digest : String) → List Materialized → Type 0
  AreMade q schema digest ms =
      AreBuilds digest ms
      × (cuda_list q.cuda ≢ [])
      × (targets : List TargetSpec) × (targets_of around (cc_or_empty q.cc) q.tvm_ffi
            (cuda_list q.cuda)
          ≡ ok targets)
      × (args : List Value) × (load_args_files lib rd q.args_files schema ≡ ok args)
      × HasBuilds lib digest ms targets args

  build_all-AreMade :
      (q : ReleaseRequest) (schema : Value) (release : BuildObjects) (ms : List Materialized)
      (w v : W)
      → build_all lib rd fnmatch files codec read_elf builders clients around q schema release w
        ≡ (ok ms, v)
      → AreMade q schema release.digest ms
  unfolding build_all
  build_all-AreMade q schema release ms w v h =
      on_run (lift (raise_if (is_empty (cuda_list q.cuda)) _)) _ w h λ _ w1 e1 h1.
        on_run (lift (targets_of around (cc_or_empty q.cc) q.tvm_ffi (cuda_list q.cuda))) _ w1 h1
          λ targets w2 e2 h2.
            on_run (lift (load_args_files lib rd q.args_files schema)) _ w2 h2 λ args w3 e3 h3.
              on_run (lift (extract_source_archive codec release.layer)) _ w3 h3 λ source w4 _ h4.
                on_run
                  (build_targets lib codec read_elf builders q.backend q.builder_image
                    (tree_of source) release.digest targets args no_progress)
                  _ w4 h4
                  λ done w5 e h5.
                    subst (AreMade q schema release.digest)
                      (ok_injective (ap (λ (x : Result (List Materialized) × W). x.0) h5))
                      (
                        build_targets-IsPublishable lib codec read_elf builders q.backend
                            q.builder_image (tree_of source) release.digest targets args done w4 w5
                            e,
                        is_empty-false (cuda_list q.cuda) (
                            raise_if-eq-ok (is_empty (cuda_list q.cuda)) _
                              (ap (λ (x : Result (Unit {0}) × W). x.0) e1)),
                        targets,
                        ap (λ x. x.0) e2,
                        args,
                        ap (λ x. x.0) e3,
                        build_targets-HasBuilds lib codec read_elf builders q.backend
                            q.builder_image (tree_of source) release.digest targets args done w4 w5
                            e,
                      )

  if_asked-AreBuilds :
      (q : ReleaseRequest) (schema : Value) (release : BuildObjects) (ms : List Materialized)
      (w v : W)
      → build_if_asked lib rd fnmatch files codec read_elf builders clients around q schema release
          w
        ≡ (ok ms, v)
      → AreBuilds release.digest ms
        × (((q.args_files ≡ []) × (ms ≡ [])) ⊎ AreMade q schema release.digest ms)
  if_asked-AreBuilds q schema release ms w v h = go (is_empty q.args_files) refl h
    where
      go :
          (b : Bool)
          → is_empty q.args_files ≡ b
          → (if b
                then pure {S = W} {A = List Materialized} []
                else build_all lib rd fnmatch files codec read_elf builders clients around q schema
                    release)
              w
            ≡ (ok ms, v)
          → AreBuilds release.digest ms
            × (((q.args_files ≡ []) × (ms ≡ [])) ⊎ AreMade q schema release.digest ms)
      go true e h' =
          let none_made : [] ≡ ms = cc in
          (
            subst (AreBuilds release.digest) none_made (tt, tt),
            inl (is_empty-true q.args_files e, sym none_made),
          )
      go false e h' = let made = build_all-AreMade q schema release ms w v h' in (made.0, inr made)

  -- With the project that was read
  if_asked-IsBuilt :
      (q : ReleaseRequest) (root : Entries) (manifest : ProjectManifest) (schema : Fields)
      (digest : String) (ms : List Materialized)
      → load_project lib rd root ≡ ok (manifest, schema)
      → ((q.args_files ≡ []) × (ms ≡ [])) ⊎ AreMade q (obj schema) digest ms
      → IsBuilt lib rd around q root digest ms
  if_asked-IsBuilt q root manifest schema digest ms e (inl none_made) = inl none_made
  if_asked-IsBuilt q root manifest schema digest ms e
        (inr (builds, some_cuda, targets, t, args, a, b)) =
      inr (manifest, schema, e, some_cuda, targets, t, args, a, b)

  pub prepare-IsPlan :
      (q : ReleaseRequest) (root : Entries) (plan : Plan) (w v : W)
      → prepare lib rd fnmatch files codec read_elf builders clients around q root w ≡ (ok plan, v)
      → IsPlan lib rd fnmatch codec read_elf clients around q root plan
  unfolding prepare
  prepare-IsPlan q root plan w v h =
      on_run (lift (raise_if (not (q.backend == "docker") && not (q.backend == "nix")) _)) _ w h
        λ _ w1 _ h1. on_run (lift (validate_version q.version)) _ w1 h1 λ version w2 e2 h2.
          on_run (lift (load_project lib rd root)) _ w2 h2 λ loaded w3 e3 h3.
            on_run (lift (check_arguments q)) _ w3 h3 λ _ w4 _ h4.
              on_run (lift (load_registry_set around.urlparse around.config_file)) _ w4 h4
                λ registries w5 e5 h5.
                  on_run (lift (open_all clients loaded.0.name registries)) _ w5 h5
                    λ opened w6 e6 h6.
                      on_run (lift (release_objects lib rd fnmatch codec root version)) _ w6 h6
                        λ release w7 e7 h7.
                          on_run
                            (build_if_asked lib rd fnmatch files codec read_elf builders clients
                              around q (obj loaded.1) release)
                            _ w7 h7
                            λ builds w8 e8 h8.
                              let made =
                                if_asked-AreBuilds q (obj loaded.1) release builds w7 w8 e8 in
                              subst (IsPlan lib rd fnmatch codec read_elf clients around q root)
                                (ok_injective (ap (λ (x : Result Plan × W). x.0) h8))
                                (record {
                                  version_is = ap (λ (x : Result String × W). x.0) e2;
                                  registries_is = ap (λ x. x.0) e5;
                                  clients_are = ap (λ x. x.0) e6;
                                  release_is = ap (λ x. x.0) e7;
                                  distinct = made.0.0;
                                  publishable = made.0.1;
                                  built =
                                      if_asked-IsBuilt q root loaded.0 loaded.1 release.digest
                                        builds (ap (λ x. x.0) e3) made.1;
                                })
