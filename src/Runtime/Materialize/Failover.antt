-- ===== src/Runtime/Materialize/Failover.antt =====
-- Which registry answers for a build.
use k_dash.Base.{
  ◌≡◌, refl, ap, subst, String, Bool, true, false, not, ◌&&◌, Option, none, some, List, [], ◌∷◌,
  Result, ok, err, Error, ok_injective, if◌then◌else◌,
}
use k_dash.Model.{RegistryConfig}
use k_dash.Artifact.{build_type}
use k_dash.Oci.{PulledArtifact}
use k_dash.Runtime.{Registries, is_access_failure}
use k_dash.Runtime.Materialize.{is_not_found, is_last, next_registry, find_binary}

-- The registries before the one that answers cannot be reached, one after the other; it answers with an
-- artifact, or says that there is none.
pub data Answers {W : Type 0} (net : Registries W) (kernel tag : String)
    : List RegistryConfig → W → RegistryConfig → Option PulledArtifact → W → Type 0 where
  hit :
      {r : RegistryConfig} {rs : List RegistryConfig} {w v : W} {artifact : PulledArtifact}
      → net.pull r kernel tag build_type w ≡ (ok artifact, v)
      → Answers net kernel tag (r ∷ rs) w r (some artifact) v
  miss :
      {r : RegistryConfig} {rs : List RegistryConfig} {w v : W} {e : Error}
      → net.pull r kernel tag build_type w ≡ (err e, v)
      → is_not_found e ≡ true
      → Answers net kernel tag (r ∷ rs) w r none v
  unreachable :
      {r next : RegistryConfig} {rs : List RegistryConfig} {w v u : W} {e : Error}
      {o : Option PulledArtifact}
      → net.pull r kernel tag build_type w ≡ (err e, v)
      → is_access_failure e ≡ true
      → Answers net kernel tag rs v next o u
      → Answers net kernel tag (r ∷ rs) w next o u

abbrev Answer : Type 0
Answer = Option PulledArtifact × RegistryConfig

abbrev ok_at {ℓ} : {A : Type ℓ} {W : Type 0} → A → W → Result A × W
ok_at a w = (ok a, w)

ok_pair {ℓ} :
    {A : Type ℓ} {W : Type 0} {a b : A} {s t : W} → ok_at a s ≡ ok_at b t → (a ≡ b) × (s ≡ t)
ok_pair h = (ok_injective (ap (λ x. x.0) h), ap (λ x. x.1) h)

and_left : (a b : Bool) → (a && b) ≡ true → a ≡ true
and_left true b h = refl
and_left false b h = cc

module _ {W : Type 0} (net : Registries W) (kernel tag : String) where
  -- The registry that `find_binary` names is the first of the order that can be reached, and what it returns is
  -- that registry's answer: the artifact, or that there is none.
  pub find_binary-Answers :
      (rs : List RegistryConfig) (w : W) (o : Option PulledArtifact) (r : RegistryConfig) (u : W)
      → find_binary net kernel tag rs w ≡ (ok (o, r), u)
      → Answers net kernel tag rs w r o u
  unfolding find_binary
  find_binary-Answers [] w o r u h = cc
  find_binary-Answers (q ∷ rs) w o r u h =
      answered (λ v g. find_binary-Answers rs v o r u g) (net.pull q kernel tag build_type w) refl h
    where
      found :
          (o' : Option PulledArtifact) (v : W)
          → Answers net kernel tag (q ∷ rs) w q o' v
          → ok_at {A = Answer} (o', q) v ≡ ok_at {A = Answer} (o, r) u
          → Answers net kernel tag (q ∷ rs) w r o u
      found o' v a e =
          let (same, end) = ok_pair e in
          subst (Answers net kernel tag (q ∷ rs) w r o) end
            (subst (λ (x : Answer). Answers net kernel tag (q ∷ rs) w x.1 x.0 v) same a)

      asked :
          ((v : W)
            → find_binary net kernel tag rs v ≡ ok_at {A = Answer} (o, r) u
            → Answers net kernel tag rs v r o u)
          → (e : Error) (v : W) (b c : Bool) → net.pull q kernel tag build_type w ≡ (err e, v)
          → is_not_found e ≡ b
          → (is_access_failure e && not (is_last rs)) ≡ c
          → (if b
              then ok_at {A = Answer} (none, q) v
              else if c
              then find_binary net kernel tag rs v
              else (err e, v))
            ≡ ok_at {A = Answer} (o, r) u
          → Answers net kernel tag (q ∷ rs) w r o u
      asked later e v true c p n a g = found none v (miss p n) g
      asked later e v false true p n a g =
          unreachable p (and_left (is_access_failure e) (not (is_last rs)) a) (later v g)
      asked later e v false false p n a g = cc

      answered :
          ((v : W)
            → find_binary net kernel tag rs v ≡ ok_at {A = Answer} (o, r) u
            → Answers net kernel tag rs v r o u)
          → (x : Result PulledArtifact × W) → net.pull q kernel tag build_type w ≡ x
          → next_registry net kernel tag q (is_last rs) (find_binary net kernel tag rs) x
            ≡ ok_at {A = Answer} (o, r) u
          → Answers net kernel tag (q ∷ rs) w r o u
      answered later (ok artifact, v) p g = found (some artifact) v (hit p) g
      answered later (err e, v) p g =
          asked later e v (is_not_found e) (is_access_failure e && not (is_last rs)) p refl refl g
