-- ===== src/Publish/Publishable.antt =====
-- What the builds are that `publish_release` pushes.
use k_dash.Base.{
  ◌≡◌, refl, ◌∙◌, ap, sym, subst, String, Bool, true, false, ◌||◌, List, [], ◌∷◌, ◌++◌, map, ◌==◌,
  All, contains, IsDistinct, Result, ok, if◌then◌else◌, on_ok, ok_injective,
}
use k_dash.Base.Exec.{pure, lift, on_run}
use k_dash.Json.{Value, arr, obj, Fields}
use k_dash.External.{Bytes, Libraries}
use k_dash.Model.{TargetSpec, target_dict, BuildSpec, build_spec}
use k_dash.Canonical.{canonical_json, digest_bytes, spec_key}
use k_dash.Artifact.{Codec, BuildObjects, build_objects, binary_archive}
use k_dash.Project.Tree.{Entries}
use k_dash.Validation.{ReadElf, readable, cxx_runtime_requirement, validate_kernel_so}
use k_dash.Validation.Dependencies.{infer_host_dependencies}
use k_dash.Validation.Portable.{IsPortable, validate_kernel_so-IsPortable}
use k_dash.Runtime.Materialize.{cxx_runtime_value}
use k_dash.Base.Lists.Laws.{contains-append, IsDistinct-append, All-append}
use k_dash.Publish.Packed.{build_objects-IsPacked}
use k_dash.Publish.Objects.{Builders, Materialized, materialized_of, checked_objects}
use k_dash.Publish.Builds.{
  Progress, no_progress, build_with, build_one, unless_seen, build_target, build_targets,
}

-- A build of a release, packed with its config, whose kernel.so passes validation.
pub record IsPublishable (lib : Libraries) (codec : Codec) (read_elf : ReadElf)
    (release_digest : String) (m : Materialized) : Type 0 where
  pub spec : BuildSpec
  pub kernel_so : Bytes
  pub config : Fields
  pub key_is : spec_key lib spec ≡ ok m.key
  pub release_is : spec.release_digest ≡ release_digest
  pub layer_is : m.layer ≡ binary_archive codec kernel_so
  pub config_is : canonical_json lib (obj config) ≡ ok m.config_bytes
  pub digest_is : m.digest ≡ digest_bytes lib m.manifest_bytes
  pub portable : IsPortable lib read_elf kernel_so config

abbrev pub keys_of : List Materialized → List String
keys_of ms = map (λ (m : Materialized). m.key) ms

pub keys-append :
    (ms : List Materialized) (m : Materialized) → keys_of (ms ++ m ∷ []) ≡ keys_of ms ++ m.key ∷ []
keys-append [] m = refl
keys-append (n ∷ ms) m = ap (λ ks. n.key ∷ ks) (keys-append ms m)

pub returned {ℓ} :
    {S : Type 0} {A : Type ℓ} {a b : A} {s t : S}
    → ◌≡◌ {A = Result A × S} (ok a, s) (ok b, t)
    → a ≡ b
returned h = cc

module _ (lib : Libraries) (codec : Codec) (read_elf : ReadElf) where
  checked_objects-IsPublishable :
      (spec : BuildSpec) (key : String) (kernel_so : Bytes) (provenance : Value) {o : BuildObjects}
      → spec_key lib spec ≡ ok key
      → checked_objects lib codec read_elf spec kernel_so provenance ≡ ok o
      → IsPublishable lib codec read_elf spec.release_digest (materialized_of key o)
  unfolding checked_objects
  checked_objects-IsPublishable spec key kernel_so provenance k h =
      on_ok (readable (read_elf kernel_so)) _ h λ elf _ h1.
        let dependencies = arr (infer_host_dependencies elf) in
        let cxx = cxx_runtime_value (cxx_runtime_requirement elf) in
        on_ok (build_objects lib codec spec kernel_so provenance dependencies cxx) _ h1 λ made e h2.
          on_ok (validate_kernel_so lib read_elf kernel_so made.config true) _ h2 λ u v h3.
            let (layer_is, config_is, digest_is) =
              build_objects-IsPacked lib codec spec kernel_so provenance dependencies cxx e in
            subst
              (λ x. IsPublishable lib codec read_elf spec.release_digest (materialized_of key x))
              (ok_injective h3)
              (record {
                spec = spec;
                kernel_so = kernel_so;
                config = made.config;
                key_is = k;
                release_is = refl;
                layer_is = layer_is;
                config_is = config_is;
                digest_is = digest_is;
                portable = validate_kernel_so-IsPortable lib read_elf kernel_so made.config v;
              })

  -- The loop's variables: the keys that were seen are those of the builds, each once.
  record IsGood (digest : String) (p : Progress) : Type 0 where
    seen_is : (x : String) → contains p.seen x ≡ contains (keys_of p.built) x
    distinct : IsDistinct (keys_of p.built)
    publishable : All (IsPublishable lib codec read_elf digest) p.built

  module _ {W : Type 0} (builders : Builders W) (backend image : String) (source : Entries)
      (digest : String) where
    build_one-IsGood :
        (spec : BuildSpec) (key : String) (p q : Progress) (w v : W)
        → spec_key lib spec ≡ ok key
        → spec.release_digest ≡ digest
        → contains p.seen key ≡ false
        → IsGood digest p
        → build_one lib codec read_elf builders backend image source digest spec key p w ≡ (ok q, v)
        → IsGood digest q
    build_one-IsGood spec key p q w v k r new good h =
        on_run (build_with lib codec read_elf builders backend image source digest spec) _ w h
          λ made w1 _ h1.
            on_run (lift (checked_objects lib codec read_elf spec made.0 made.1)) _ w1 h1
              λ o w2 e2 h2. subst (IsGood digest) (returned h2) (record {
                seen_is = λ x.
                    ap (λ b. x == key || b) (good.seen_is x)
                    ∙ sym (contains-append (keys_of p.built) key x)
                    ∙ ap (λ ks. contains ks x) (sym (keys-append p.built (materialized_of key o)));
                distinct = subst IsDistinct (sym (keys-append p.built (materialized_of key o))) (
                    IsDistinct-append (keys_of p.built) key good.distinct
                      (sym (good.seen_is key) ∙ new));
                publishable =
                    All-append (IsPublishable lib codec read_elf digest) p.built
                      (materialized_of key o) good.publishable
                      (subst (λ d. IsPublishable lib codec read_elf d (materialized_of key o)) r
                        (checked_objects-IsPublishable spec key made.0 made.1 k
                          (ap (λ x. x.0) e2)));
              })

    unless_seen-IsGood :
        (spec : BuildSpec) (key : String) (p q : Progress) (w v : W)
        → spec_key lib spec ≡ ok key
        → spec.release_digest ≡ digest
        → IsGood digest p
        → unless_seen lib codec read_elf builders backend image source digest spec key p w
          ≡ (ok q, v)
        → IsGood digest q
    unless_seen-IsGood spec key p q w v k r good h = go (contains p.seen key) refl h
      where
        go :
            (b : Bool)
            → contains p.seen key ≡ b
            → (if b
                  then pure {S = W} p
                  else build_one lib codec read_elf builders backend image source digest spec key p)
                w
              ≡ (ok q, v)
            → IsGood digest q
        go true e h' = subst (IsGood digest) (returned h') good
        go false e h' = build_one-IsGood spec key p q w v k r e good h'

    build_target-IsGood :
        (target : TargetSpec) (args : List Value) (p q : Progress) (w v : W)
        → IsGood digest p
        → build_target lib codec read_elf builders backend image source digest target args p w
          ≡ (ok q, v)
        → IsGood digest q
    unfolding build_target
    build_target-IsGood target [] p q w v good h = subst (IsGood digest) (returned h) good
    build_target-IsGood target (a ∷ args) p q w v good h =
        on_run (lift (spec_key lib (build_spec digest a (target_dict target)))) _ w h
          λ key w1 e1 h1.
            on_run
              (unless_seen lib codec read_elf builders backend image source digest
                (build_spec digest a (target_dict target)) key p)
              _ w1 h1
              λ r w2 e2 h2.
                build_target-IsGood target args r q w2 v
                  (unless_seen-IsGood (build_spec digest a (target_dict target)) key p r w1 w2
                    (ap (λ (x : Result String × W). x.0) e1) refl good e2)
                  h2

    build_targets-IsGood :
        (targets : List TargetSpec) (args : List Value) (p q : Progress) (w v : W)
        → IsGood digest p
        → build_targets lib codec read_elf builders backend image source digest targets args p w
          ≡ (ok q, v)
        → IsGood digest q
    unfolding build_targets
    build_targets-IsGood [] args p q w v good h = subst (IsGood digest) (returned h) good
    build_targets-IsGood (t ∷ targets) args p q w v good h =
        on_run (build_target lib codec read_elf builders backend image source digest t args p) _ w h
          λ r w1 e h1.
            build_targets-IsGood targets args r q w1 v (build_target-IsGood t args p r w w1 good e)
              h1

    -- The builds that are made for a release, over every target and all arguments, have different BuildKeys;
    -- each belongs to a BuildSpec of this release, is the archive of one kernel.so that passes validation
    -- with its config, and carries the digest of its manifest.
    pub build_targets-IsPublishable :
        (targets : List TargetSpec) (args : List Value) (q : Progress) (w v : W)
        → build_targets lib codec read_elf builders backend image source digest targets args
            no_progress w
          ≡ (ok q, v)
        → IsDistinct (keys_of q.built) × All (IsPublishable lib codec read_elf digest) q.built
    build_targets-IsPublishable targets args q w v h =
        let good : IsGood digest q =
          build_targets-IsGood targets args no_progress q w v
            (record { seen_is = λ x. refl; distinct = tt; publishable = tt }) h in
        (good.distinct, good.publishable)
