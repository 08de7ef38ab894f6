-- ===== src/Publish/Answers.antt =====
-- What the registries have said when `check_all` returns.
use k_dash.Base.{
  ◌≡◌, refl, ◌∙◌, ap, sym, subst, String, ◌<>◌, Bool, true, false, not, ◌&&◌, Option, none, some,
  List, [], ◌∷◌, ◌==◌, eq_iff, All, Result, ok, err, Error, raise_if, raise_if-eq-ok, if◌then◌else◌,
}
use k_dash.Base.Exec.{Exec, pure, lift, fail, on_run, Leaves}
use k_dash.Canonical.{build_tag}
use k_dash.Oci.{Client, Manifest}
use k_dash.Runtime.{is_dev}
use k_dash.Runtime.Materialize.{is_not_found}
use k_dash.Publish.Objects.{Clients, Builders, Materialized}
use k_dash.Publish.Release.{
  release_tag, bound_elsewhere, not_reproducible, bound_digest, same_or_none, check_release_binding,
  check_builds, check_all,
}
use k_dash.Publish.Quiet.{
  ReadsOnly, bound_digest-Leaves, check_release_binding-Leaves, check_builds-Leaves,
}

-- What a registry may say of a tag that is to be pushed: that there is none, or that it is the same, or
-- anything if the version is a development version.
pub data Allows (dev : Bool) (expected : String) (answer : Result Manifest) : Type 0 where
  absent : (e : Error) → answer ≡ err e → is_not_found e ≡ true → Allows dev expected answer
  same : (m : Manifest) → answer ≡ ok m → m.0 ≡ expected → Allows dev expected answer
  movable : (m : Manifest) → answer ≡ ok m → dev ≡ true → Allows dev expected answer

module _ {W : Type 0} {L : Type 0} (clients : Clients W) (log : W → L) (start : L) where
  -- A registry was asked for a tag while nothing was pushed yet, and allows it.
  abbrev pub AllowedAt : Client → (tag : String) → (dev : Bool) → (expected : String) → Type 0
  AllowedAt c tag dev expected =
      (w : W) × (log w ≡ start) × Allows dev expected (clients.get_manifest c tag w).0

  -- One registry allows the release and every build.
  pub record IsClear (version digest : String) (builds : List Materialized) (c : Client)
      : Type 0 where
    pub release : AllowedAt c ("release-" <> version) (is_dev version) digest
    pub each :
        All
          (λ m. (tag : String) × (build_tag m.key ≡ ok tag) × AllowedAt c tag false m.digest)
          builds

settled : (b : Bool) → (not b && true) ≡ false → b ≡ true
settled true h = refl
settled false h = cc

module _ {W : Type 0} {L : Type 0} (clients : Clients W) (builders : Builders W) (log : W → L)
    (laws : ReadsOnly clients builders log) (start : L) where
  -- A call that leaves the log as it is, where nothing was pushed yet
  still {ℓ} :
      {A : Type ℓ} (m : Exec W A) (w v : W) {r : Result A}
      → m w ≡ (r, v)
      → Leaves log m
      → log w ≡ start
      → log v ≡ start
  still {A = A} m w v e keep quiet = ap (λ (x : Result A × W). log x.1) (sym e) ∙ keep w ∙ quiet

  -- What a registry said, if it was asked without an error
  answered :
      (c : Client) (tag : String) (dev : Bool) (expected : String) (w v : W) (o : Option String)
      → bound_digest clients c tag w ≡ (ok o, v)
      → (not (same_or_none clients expected o) && not dev) ≡ false
      → Allows dev expected (clients.get_manifest c tag w).0
  answered c tag dev expected w v o h pass = go (clients.get_manifest c tag w) h
    where
      reported :
          (e : Error) (u : W) (b : Bool)
          → is_not_found e ≡ b
          → (if b then pure {S = W} {A = Option String} none else fail e) u ≡ (ok o, v)
          → Allows dev expected (err e)
      reported e u true t h' = absent e refl t
      reported e u false t h' = absurd (cc)

      found :
          (m : Manifest) (u : W) (b : Bool)
          → dev ≡ b
          → ◌≡◌ {A = Result (Option String) × W} (ok (some m.0), u) (ok o, v)
          → Allows dev expected (ok m)
      found m u true t h' = movable m refl t
      found m u false t h' =
          same m refl
            let is_some : some m.0 ≡ o = cc in
              let there : (not (m.0 == expected) && not dev) ≡ false =
                subst (λ x. (not (same_or_none clients expected x) && not dev) ≡ false)
                  (sym is_some) pass in
              (eq_iff m.0 expected).0 (
                settled (m.0 == expected)
                  (subst (λ d. (not (m.0 == expected) && not d) ≡ false) t there))

      go :
          (r : Result Manifest × W)
          → bound_digest (record clients { get_manifest = λ _ _ _. r }) c tag w ≡ (ok o, v)
          → Allows dev expected r.0
      go (ok m, u) h' = found m u dev refl h'
      go (err e, u) h' = reported e u (is_not_found e) refl h'

  binding_allowed :
      (version expected : String) (c : Client) (w v : W)
      → log w ≡ start
      → check_release_binding clients version expected c w ≡ (ok tt, v)
      → AllowedAt clients log start c ("release-" <> version) (is_dev version) expected
  unfolding check_release_binding
  binding_allowed version expected c w v quiet h =
      on_run (bound_digest clients c (release_tag version)) _ w h λ o u e h1. (
        w,
        quiet,
        answered c (release_tag version) (is_dev version) expected w u o e (
            raise_if-eq-ok (not (same_or_none clients expected o) && not (is_dev version))
              bound_elsewhere (ap (λ x. x.0) h1)),
      )

  abbrev EachAllowed : Client → List Materialized → Type 0
  EachAllowed c ms =
      All
        (λ m.
          (tag : String) × (build_tag m.key ≡ ok tag)
          × AllowedAt clients log start c tag false m.digest)
        ms

  builds_allowed :
      (ms : List Materialized) (c : Client) (w v : W)
      → log w ≡ start
      → check_builds clients ms c w ≡ (ok tt, v)
      → EachAllowed c ms
  unfolding check_builds
  builds_allowed [] c w v quiet h = tt
  builds_allowed (m ∷ ms) c w v quiet h = on_run (lift (build_tag m.key)) _ w h λ tag w1 e1 h1.
      let at_1 : log w1 ≡ start = still (lift (build_tag m.key)) w w1 e1 (λ _. refl) quiet in
      on_run (bound_digest clients c tag) _ w1 h1 λ o w2 e2 h2.
        let at_2 : log w2 ≡ start =
          still (bound_digest clients c tag) w1 w2 e2
            (bound_digest-Leaves clients builders log laws c tag) at_1 in
        on_run (lift (raise_if (not (same_or_none clients m.digest o)) not_reproducible)) _ w2 h2
          λ _ w3 e3 h3.
            let at_3 : log w3 ≡ start =
              still (lift (raise_if (not (same_or_none clients m.digest o)) not_reproducible)) w2 w3
                e3 (λ _. refl) at_2 in
            let pass : not (same_or_none clients m.digest o) ≡ false =
              raise_if-eq-ok (not (same_or_none clients m.digest o)) not_reproducible
                (ap (λ (x : Result (Unit {0}) × W). x.0) e3) in
            (
              (
                tag,
                ap (λ (x : Result String × W). x.0) e1,
                (w1, at_1, answered c tag false m.digest w1 w2 o e2 (rw pass refl)),
              ),
              builds_allowed ms c w3 v at_3 h3,
            )

  pub all-IsClear :
      (version expected : String) (ms : List Materialized) (cs : List Client) (w v : W)
      → log w ≡ start
      → check_all clients version expected ms cs w ≡ (ok tt, v)
      → All (IsClear clients log start version expected ms) cs
  unfolding check_all
  all-IsClear version expected ms [] w v quiet h = tt
  all-IsClear version expected ms (c ∷ cs) w v quiet h =
      on_run (check_release_binding clients version expected c) _ w h λ a w1 e1 h1.
        let at_1 : log w1 ≡ start =
          still (check_release_binding clients version expected c) w w1 e1
            (check_release_binding-Leaves clients builders log laws version expected c) quiet in
        on_run (check_builds clients ms c) _ w1 h1 λ b w2 e2 h2.
          let at_2 : log w2 ≡ start =
            still (check_builds clients ms c) w1 w2 e2
              (check_builds-Leaves clients builders log laws ms c) at_1 in
          (
            record {
              release = binding_allowed version expected c w w1 quiet e1;
              each = builds_allowed ms c w1 w2 at_1 e2;
            },
            all-IsClear version expected ms cs w2 v at_2 h2,
          )
