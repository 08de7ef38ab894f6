-- ===== src/Runtime/Cached.antt =====
-- What the cache holds once a release is resolved.
use k_dash.Base.{
  ◌≡◌, ◌≢◌, ◌∙◌, refl, sym, ap, subst, String, Bool, true, false, not, ◌&&◌, ◌||◌, List, [], ◌∷◌,
  inl, inr, if◌then◌else◌, Result, ok, err, Error, Bool-cases, Result-cases, ok_injective,
}
use k_dash.Base.Exec.{Exec, pure, lift, fail, on_run}
use k_dash.Json.{Value, str}
use k_dash.External.{Libraries}
use k_dash.Model.{RegistryConfig, RegistrySet, primary, secondaries}
use k_dash.Cache.{Files, is_null, put_resolution, get_resolution}
use k_dash.Cache.Laws.{IsReadBack, get_resolution-put_resolution}
use k_dash.Runtime.{
  Registries, State, is_access_failure, on_access_failure, is_dev, Resolved, ask, remember, recall,
  keep_cache, resolve_at, try_secondaries, resolve_online, resolve_with, resolve_release,
  resolution_miss,
}

-- A `try` that returned a value: the body returned it, or the handler did after an access failure.
on_access_failure-cases {ℓ κ} :
    {S : Type 0} {A : Type ℓ} {R : Type κ} (m : Exec S A) (handler : Error → Exec S A) (s : S)
    {a : A} {t : S}
    → on_access_failure m handler s ≡ (ok a, t)
    → (m s ≡ (ok a, t) → R)
    → ((e : Error) (u : S)
        → m s ≡ (err e, u)
        → is_access_failure e ≡ true
        → handler e u ≡ (ok a, t)
        → R)
    → R
on_access_failure-cases {S = S} {A = A} {R = R} m handler s {a} {t} h k l = go (m s) refl h
  where
    failed :
        (e : Error) (u : S) (test : Bool)
        → m s ≡ (err e, u)
        → is_access_failure e ≡ test
        → (if test then handler e else fail e) u ≡ (ok a, t)
        → R
    failed e u true p q g = l e u p q g
    failed e u false p q g = cc

    go : (r : Result A × S) → m s ≡ r → on_access_failure (λ _. r) handler s ≡ (ok a, t) → R
    go (ok b, u) p g = k (p ∙ g)
    go (err e, u) p g = failed e u (is_access_failure e) p refl g

err_ok {ℓ} : {A : Type ℓ} {e : Error} {a : A} → err e ≢ ok a
err_ok h = cc

clash {ℓ} : {b : Bool} {R : Type ℓ} → b ≡ true → b ≡ false → R
clash p q = cc

not_null : (null other : Bool) → (not null && other) ≡ true → null ≡ false
not_null true other h = cc
not_null false other h = refl

hit_both : (null settled : Bool) → null ≡ false → settled ≡ true → (not null && settled) ≡ true
hit_both null settled p q = rw (p, q) refl

module _ {W : Type 0} (lib : Libraries) (files : Files) (net : Registries W)
    (kernel version : String) where
  remember-eq-ok :
      (p : RegistryConfig) (digest : String) (s t : State W)
      → remember lib files net kernel version p digest s ≡ (ok tt, t)
      → put_resolution lib p.name kernel version digest s.cache ≡ ok t.cache
  remember-eq-ok p digest s t h =
      elim (Result-cases (put_resolution lib p.name kernel version digest s.cache)) [
        | inl (c, e) ↦
            let kept : keep_cache lib files net kernel version s (ok c) ≡ (ok tt, t) =
              subst (λ x. keep_cache lib files net kernel version s x ≡ (ok tt, t)) e h in
            e ∙ ap (λ (x : Result (Unit {0}) × State W). ok x.1.cache) kept
        | inr (x, e) ↦
            let failed : keep_cache lib files net kernel version s (err x) ≡ (ok tt, t) =
              subst (λ x. keep_cache lib files net kernel version s x ≡ (ok tt, t)) e h in
            absurd (err_ok (ap (λ (x : Result (Unit {0}) × State W). x.0) failed))
      ]

  -- What `resolve_at` leaves behind when it returns.
  resolve_at-cached :
      IsReadBack lib files
      → (p r : RegistryConfig) (s t : State W) (d : Value) (r' : RegistryConfig)
      → resolve_at lib files net kernel version p r s ≡ (ok (d, r'), t)
      → (get_resolution files p.name kernel version t.cache ≡ ok d) × (is_null d ≡ false) × (r' ≡ r)
  unfolding resolve_at
  resolve_at-cached back p r s t d r' h =
      on_run (ask lib files net kernel version r) _ s h λ manifest u _ h1.
        on_run (remember lib files net kernel version p manifest.0) _ u h1 λ _ v q h2.
          let same : v ≡ t = ap (λ (x : Result Resolved × State W). x.1) h2 in
          let pair = ok_injective (ap (λ (x : Result Resolved × State W). x.0) h2) in
          let digest : str manifest.0 ≡ d = ap (λ (x : Resolved). x.0) pair in
          let stored =
            get_resolution-put_resolution lib files p.name kernel version manifest.0 u.cache v.cache
              back (remember-eq-ok p manifest.0 u v q) in
          (
            ap (λ (x : State W). get_resolution files p.name kernel version x.cache) (sym same)
                ∙ stored.0
                ∙ ap (λ x. ok x) digest,
            subst (λ x. is_null x ≡ false) digest refl,
            sym (ap (λ (x : Resolved). x.1) pair),
          )

  -- The primary's name has the digest in the cache.
  abbrev pub IsCached : RegistryConfig → Value → State W → Type 0
  IsCached p d t = (get_resolution files p.name kernel version t.cache ≡ ok d) × (is_null d ≡ false)

  try_secondaries-IsCached :
      IsReadBack lib files
      → (p : RegistryConfig) (rs : List RegistryConfig) (s t : State W) (d : Value)
        (r : RegistryConfig)
      → try_secondaries lib files net kernel version p rs s ≡ (ok (d, r), t)
      → IsCached p d t
  unfolding try_secondaries
  try_secondaries-IsCached back p [] s t d r h = cc
  try_secondaries-IsCached back p (q ∷ rs) s t d r h =
      on_access_failure-cases (resolve_at lib files net kernel version p q) _ s h
        (λ e. let (a, b, _) = resolve_at-cached back p q s t d r e in (a, b))
        λ _ u _ _ e. try_secondaries-IsCached back p rs u t d r e

  resolve_online-IsCached :
      IsReadBack lib files
      → (p : RegistryConfig) (rs : List RegistryConfig) (s t : State W) (d : Value)
        (r : RegistryConfig)
      → resolve_online lib files net kernel version p rs s ≡ (ok (d, r), t)
      → IsCached p d t × (is_dev version ≡ true → r ≡ p)
  unfolding resolve_online
  resolve_online-IsCached back p rs s t d r h =
      on_access_failure-cases (resolve_at lib files net kernel version p p) _ s h
        (λ e. let (a, b, c) = resolve_at-cached back p p s t d r e in ((a, b), λ _. c))
        λ x u _ _ e. elim (Bool-cases (is_dev version)) [
          | inl dev ↦
              let failed =
                subst
                  (λ b.
                    (if b then fail x else try_secondaries lib files net kernel version p rs) u
                    ≡ (ok (d, r), t))
                  dev e in
              absurd (err_ok (ap (λ (y : Result Resolved × State W). y.0) failed))
          | inr other ↦
              let found =
                subst
                  (λ b.
                    (if b then fail x else try_secondaries lib files net kernel version p rs) u
                    ≡ (ok (d, r), t))
                  other e in
              (try_secondaries-IsCached back p rs u t d r found, λ dev. clash dev other)
        ]

  returned-IsCached :
      (p : RegistryConfig) (cached : Value) (s t : State W) (d : Value) (r : RegistryConfig)
      → get_resolution files p.name kernel version s.cache ≡ ok cached
      → is_null cached ≡ false
      → pure {S = State W} {A = Resolved} (cached, p) s ≡ (ok (d, r), t)
      → IsCached p d t × (is_dev version ≡ true → r ≡ p)
  returned-IsCached p cached s t d r recalled there h =
      let pair = ok_injective (ap (λ (x : Result Resolved × State W). x.0) h) in
      let digest : cached ≡ d = ap (λ (x : Resolved). x.0) pair in
      (
        (
          ap
                (λ (x : Result Resolved × State W).
                  get_resolution files p.name kernel version x.1.cache)
                (sym h)
              ∙ recalled
              ∙ ap (λ x. ok x) digest,
          subst (λ x. is_null x ≡ false) digest there,
        ),
        λ _. sym (ap (λ (x : Resolved). x.1) pair),
      )

  resolve_with-IsCached :
      IsReadBack lib files
      → (offline : Bool) (p : RegistryConfig) (rs : List RegistryConfig) (cached : Value)
        (s t : State W) (d : Value) (r : RegistryConfig)
      → get_resolution files p.name kernel version s.cache ≡ ok cached
      → resolve_with lib files net kernel version offline p rs cached s ≡ (ok (d, r), t)
      → IsCached p d t × (is_dev version ≡ true → r ≡ p)
  resolve_with-IsCached back true p rs cached s t d r recalled h =
      elim (Bool-cases (is_null cached)) [
        | inl null ↦
            let failed =
              subst
                (λ b.
                  (if b
                      then fail resolution_miss
                      else pure {S = State W} {A = Resolved} (cached, p))
                    s
                  ≡ (ok (d, r), t))
                null h in
            absurd (err_ok (ap (λ (y : Result Resolved × State W). y.0) failed))
        | inr there ↦ returned-IsCached p cached s t d r recalled there (
            subst
              (λ b.
                (if b then fail resolution_miss else pure {S = State W} {A = Resolved} (cached, p))
                  s
                ≡ (ok (d, r), t))
              there h)
      ]
  resolve_with-IsCached back false p rs cached s t d r recalled h =
      elim (Bool-cases (not (is_null cached) && not (is_dev version))) [
        | inl hit ↦
            returned-IsCached p cached s t d r recalled
              (not_null (is_null cached) (not (is_dev version)) hit)
              (subst
                (λ b.
                  (if b
                      then pure {S = State W} {A = Resolved} (cached, p)
                      else resolve_online lib files net kernel version p rs)
                    s
                  ≡ (ok (d, r), t))
                hit h)
        | inr miss ↦ resolve_online-IsCached back p rs s t d r (
            subst
              (λ b.
                (if b
                    then pure {S = State W} {A = Resolved} (cached, p)
                    else resolve_online lib files net kernel version p rs)
                  s
                ≡ (ok (d, r), t))
              miss h)
      ]

  pub resolve_with-hit :
      (offline : Bool) (p : RegistryConfig) (rs : List RegistryConfig) (d : Value) (u : State W)
      → is_null d ≡ false
      → (offline || not (is_dev version)) ≡ true
      → resolve_with lib files net kernel version offline p rs d u ≡ (ok (d, p), u)
  resolve_with-hit true p rs d u there h =
      ap (λ b. (if b then fail resolution_miss else pure (d, p)) u) there
  resolve_with-hit false p rs d u there h =
      ap (λ b. (if b then pure (d, p) else resolve_online lib files net kernel version p rs) u)
        (hit_both (is_null d) (not (is_dev version)) there h)

  -- What is known once a release is resolved.
  pub resolve_release-IsCached :
      IsReadBack lib files
      → (offline : Bool) (registries : RegistrySet) (s t : State W) (d : Value) (r : RegistryConfig)
      → resolve_release lib files net kernel version offline registries s ≡ (ok (d, r), t)
      → (p : RegistryConfig) × (primary registries ≡ ok p)
        × IsCached p d t
        × (is_dev version ≡ true → r ≡ p)
  unfolding resolve_release
  resolve_release-IsCached back offline registries s t d r h =
      on_run (lift (primary registries)) _ s h λ p u e h1.
        on_run (recall lib files net kernel version p) _ u h1 λ cached v f h2.
          let found : primary registries ≡ ok p = ap (λ x. x.0) e in
          let recalled : get_resolution files p.name kernel version v.cache ≡ ok cached =
            subst (λ (x : State W). get_resolution files p.name kernel version x.cache ≡ ok cached)
              (ap (λ x. x.1) f) (ap (λ x. x.0) f) in
          let (c, o) =
            resolve_with-IsCached back offline p (secondaries registries) cached v t d r recalled
              h2 in
          (p, found, c, o)
