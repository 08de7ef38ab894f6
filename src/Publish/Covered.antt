-- ===== src/Publish/Covered.antt =====
-- Every target with all arguments has a build when the loops of `publish_release` are over.
use k_dash.Base.{
  ◌≡◌, refl, ◌∙◌, ap, subst, String, Bool, true, false, ◌||◌, List, [], ◌∷◌, ◌++◌, ◌==◌, All,
  contains, Result, ok, if◌then◌else◌, eq_iff,
}
use k_dash.Base.Exec.{pure, lift, on_run}
use k_dash.Base.Lists.Laws.{contains-append, All-weaken}
use k_dash.Json.{Value}
use k_dash.External.{Libraries}
use k_dash.Model.{TargetSpec, target_dict, BuildSpec, build_spec}
use k_dash.Canonical.{spec_key}
use k_dash.Artifact.{Codec}
use k_dash.Project.Tree.{Entries}
use k_dash.Validation.{ReadElf}
use k_dash.Publish.Objects.{Builders, Materialized, materialized_of, checked_objects}
use k_dash.Publish.Builds.{
  Progress, no_progress, build_with, build_one, unless_seen, build_target, build_targets,
}
use k_dash.Publish.Publishable.{keys_of, keys-append, returned}

-- A build under the BuildKey of this target and these arguments
abbrev pub HasBuild : Libraries → String → List Materialized → TargetSpec → Value → Type 0
HasBuild lib digest ms target args =
    (key : String) × (spec_key lib (build_spec digest args (target_dict target)) ≡ ok key)
    × (contains (keys_of ms) key ≡ true)

-- A build for each target with each of the arguments
abbrev pub HasBuilds :
    Libraries → String → List Materialized → List TargetSpec → List Value → Type 0
HasBuilds lib digest ms targets args =
    All (λ target. All (HasBuild lib digest ms target) args) targets

-- From one state of the loops to a later one no build is lost, and what was seen is built.
record Follows (p q : Progress) : Type 0 where
  known : (x : String) → contains q.seen x ≡ true → contains (keys_of q.built) x ≡ true
  grows : (x : String) → contains (keys_of p.built) x ≡ true → contains (keys_of q.built) x ≡ true

or-true : (a b c : Bool) → (b ≡ true → c ≡ true) → (a || b) ≡ true → (a || c) ≡ true
or-true true b c f h = refl
or-true false b c f h = f h

or-right : (a b : Bool) → b ≡ true → (a || b) ≡ true
or-right true b h = refl
or-right false b h = h

or-left : (a b : Bool) → a ≡ true → (a || b) ≡ true
or-left true b h = refl
or-left false b h = absurd (cc)

trans : (p q r : Progress) → Follows p q → Follows q r → Follows p r
trans p q r f g = record { known = g.known; grows = λ x h. g.grows x (f.grows x h) }

stays : (p q : Progress) → Follows p q → Follows q q
stays p q f = record { known = f.known; grows = λ x h. h }

HasBuild-grows :
    (lib : Libraries) (digest : String) (p q : Progress) (target : TargetSpec) (args : Value)
    → Follows p q
    → HasBuild lib digest p.built target args
    → HasBuild lib digest q.built target args
HasBuild-grows lib digest p q target args f (key, k, b) = (key, k, f.grows key b)

module _ {W : Type 0} (lib : Libraries) (codec : Codec) (read_elf : ReadElf) (builders : Builders W)
    (backend image : String) (source : Entries) (digest : String) where
  build_one-Follows :
      (spec : BuildSpec) (key : String) (p q : Progress) (w v : W)
      → Follows p p
      → build_one lib codec read_elf builders backend image source digest spec key p w ≡ (ok q, v)
      → Follows p q × (contains (keys_of q.built) key ≡ true)
  build_one-Follows spec key p q w v f h =
      on_run (build_with lib codec read_elf builders backend image source digest spec) _ w h
        λ made w1 _ h1.
          on_run (lift (checked_objects lib codec read_elf spec made.0 made.1)) _ w1 h1
            λ o w2 e2 h2.
              let added : (x : String)
                  → contains (keys_of (p.built ++ materialized_of key o ∷ [])) x
                    ≡ (x == key || contains (keys_of p.built) x) =
                λ x.
                  ap (λ ks. contains ks x) (keys-append p.built (materialized_of key o))
                  ∙ contains-append (keys_of p.built) key x in
              subst (λ r. Follows p r × (contains (keys_of r.built) key ≡ true)) (returned h2)
                (
                  record {
                    known = λ x s.
                        added x
                        ∙ or-true (x == key) (contains p.seen x) (contains (keys_of p.built) x)
                            (f.known x) s;
                    grows = λ x s. added x ∙ or-right (x == key) (contains (keys_of p.built) x) s;
                  },
                  added key
                      ∙ or-left (key == key) (contains (keys_of p.built) key)
                          ((eq_iff key key).1 refl),
                )

  unless_seen-Follows :
      (spec : BuildSpec) (key : String) (p q : Progress) (w v : W)
      → Follows p p
      → unless_seen lib codec read_elf builders backend image source digest spec key p w ≡ (ok q, v)
      → Follows p q × (contains (keys_of q.built) key ≡ true)
  unless_seen-Follows spec key p q w v f h = go (contains p.seen key) refl h
    where
      go :
          (b : Bool)
          → contains p.seen key ≡ b
          → (if b
                then pure {S = W} p
                else build_one lib codec read_elf builders backend image source digest spec key p)
              w
            ≡ (ok q, v)
          → Follows p q × (contains (keys_of q.built) key ≡ true)
      go true e h' =
          subst (λ r. Follows p r × (contains (keys_of r.built) key ≡ true)) (returned h')
            (f, f.known key e)
      go false e h' = build_one-Follows spec key p q w v f h'

  build_target-Follows :
      (target : TargetSpec) (args : List Value) (p q : Progress) (w v : W)
      → Follows p p
      → build_target lib codec read_elf builders backend image source digest target args p w
        ≡ (ok q, v)
      → Follows p q × All (HasBuild lib digest q.built target) args
  unfolding build_target
  build_target-Follows target [] p q w v f h =
      subst (λ r. Follows p r × All (HasBuild lib digest r.built target) []) (returned h) (f, tt)
  build_target-Follows target (a ∷ args) p q w v f h =
      on_run (lift (spec_key lib (build_spec digest a (target_dict target)))) _ w h λ key w1 e1 h1.
        on_run
          (unless_seen lib codec read_elf builders backend image source digest
            (build_spec digest a (target_dict target)) key p)
          _ w1 h1
          λ r w2 e2 h2.
            let (first, made) =
              unless_seen-Follows (build_spec digest a (target_dict target)) key p r w1 w2 f e2 in
            let (later, rest) = build_target-Follows target args r q w2 v (stays p r first) h2 in
            (
              trans p r q first later,
              ((key, ap (λ (x : Result String × W). x.0) e1, later.grows key made), rest),
            )

  build_targets-Follows :
      (targets : List TargetSpec) (args : List Value) (p q : Progress) (w v : W)
      → Follows p p
      → build_targets lib codec read_elf builders backend image source digest targets args p w
        ≡ (ok q, v)
      → Follows p q × HasBuilds lib digest q.built targets args
  unfolding build_targets
  build_targets-Follows [] args p q w v f h =
      subst (λ r. Follows p r × HasBuilds lib digest r.built [] args) (returned h) (f, tt)
  build_targets-Follows (t ∷ targets) args p q w v f h =
      on_run (build_target lib codec read_elf builders backend image source digest t args p) _ w h
        λ r w1 e h1.
          let (first, made) = build_target-Follows t args p r w w1 f e in
          let (later, rest) = build_targets-Follows targets args r q w1 v (stays p r first) h1 in
          (
            trans p r q first later,
            (
              All-weaken (HasBuild lib digest r.built t) (HasBuild lib digest q.built t) args
                  (λ a. HasBuild-grows lib digest r q t a later) made,
              rest,
            ),
          )

  pub build_targets-HasBuilds :
      (targets : List TargetSpec) (args : List Value) (q : Progress) (w v : W)
      → build_targets lib codec read_elf builders backend image source digest targets args
          no_progress w
        ≡ (ok q, v)
      → HasBuilds lib digest q.built targets args
  build_targets-HasBuilds targets args q w v h =
      (build_targets-Follows targets args no_progress q w v
        (record { known = λ x s. s; grows = λ x s. s }) h).1
