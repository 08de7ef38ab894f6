-- ===== src/Runtime/Resolution.antt =====
-- How a release is resolved: what is asked, which registry may answer, and that an answer lasts.
use k_dash.Base.{
  ◌≡◌, ◌∙◌, refl, sym, ap, String, Bool, true, not, ◌||◌, inl, inr, ok, Bool-cases, Result-cases,
}
use k_dash.Json.{Value}
use k_dash.External.{Libraries}
use k_dash.Model.{RegistryConfig, RegistrySet, primary, secondaries}
use k_dash.Cache.{Files, is_null, get_resolution}
use k_dash.Cache.Laws.{IsReadBack}
use k_dash.Runtime.{Registries, State, is_dev, resolve_release}
use k_dash.Runtime.Cached.{resolve_with-hit, resolve_release-IsCached}

module _ {W : Type 0} (lib : Libraries) (files : Files) (net : Registries W)
    (kernel version : String) where
  -- Offline, resolving a release sends nothing and changes nothing, whether it succeeds or not.
  pub resolve_release_offline :
      (registries : RegistrySet) (s : State W)
      → (resolve_release lib files net kernel version true registries s).1 ≡ s
  unfolding resolve_release
  resolve_release_offline registries s = elim (Result-cases (primary registries)) [
    | inl (p, e) ↦ elim (Result-cases (get_resolution files p.name kernel version s.cache)) [
      | inl (v, f) ↦ elim (Bool-cases (is_null v)) [
        | inl n ↦ rw (e, f, n) refl
        | inr n ↦ rw (e, f, n) refl
      ]
      | inr (x, f) ↦ rw (e, f) refl
    ]
    | inr (x, e) ↦ rw e refl
  ]

  -- A development version is never resolved by a secondary.
  pub resolve_release_dev :
      IsReadBack lib files
      → (offline : Bool) (registries : RegistrySet) (s t : State W) (d : Value) (r : RegistryConfig)
      → is_dev version ≡ true
      → resolve_release lib files net kernel version offline registries s ≡ (ok (d, r), t)
      → primary registries ≡ ok r
  resolve_release_dev back offline registries s t d r dev h =
      let (p, found, _, from) =
        resolve_release-IsCached lib files net kernel version back offline registries s t d r h in
      found ∙ ap (λ x. ok x) (sym (from dev))

  -- Once a release is resolved, resolving it again in a process that has the same cache gives the same digest
  -- and the primary, without a request and without a change: offline, and for a version that is none
  -- of development also online.
  pub resolve_release_again :
      IsReadBack lib files
      → (offline offline' : Bool) (registries : RegistrySet) (s t u : State W) (d : Value)
        (r : RegistryConfig)
      → (offline' || not (is_dev version)) ≡ true
      → resolve_release lib files net kernel version offline registries s ≡ (ok (d, r), t)
      → u.cache ≡ t.cache
      → (p : RegistryConfig) × (primary registries ≡ ok p)
        × (resolve_release lib files net kernel version offline' registries u ≡ (ok (d, p), u))
  unfolding resolve_release
  resolve_release_again back offline offline' registries s t u d r settled h same =
      let (p, found, (stored, there), _) =
        resolve_release-IsCached lib files net kernel version back offline registries s t d r h in
      let recalled : get_resolution files p.name kernel version u.cache ≡ ok d =
        ap (get_resolution files p.name kernel version) same ∙ stored in
      (
        p,
        found,
        rw (found, recalled)
            (resolve_with-hit lib files net kernel version offline' p (secondaries registries) d u
              there settled),
      )
