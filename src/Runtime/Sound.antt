-- ===== src/Runtime/Sound.antt =====
-- Calls that leave a sound cache.
use k_dash.Base.{◌≡◌, refl, Result, ok, err}
use k_dash.Base.Exec.{Exec, lift, ◌>>=◌}
use k_dash.Cache.{Cache}
use k_dash.Cache.Sound.{IsSound}
use k_dash.Runtime.{State}
use k_dash.Runtime.Materialize.{on_network, write_cache, end_commit}
use k_dash.Runtime.Keeps.{Keeps, bind-Keeps}

module _ {W : Type 0} where
  abbrev pub KeepsSound {ℓ} : {A : Type ℓ} → Exec (State W) A → Type 0
  KeepsSound m = Keeps IsSound m

  -- What reads only the arguments, and what asks only the network or a builder
  pub lift-KeepsSound {ℓ κ} :
      {A : Type ℓ} {B : Type κ} (r : Result A) (f : A → Exec (State W) B)
      → ((a : A) → KeepsSound (f a))
      → KeepsSound (lift r >>= f)
  lift-KeepsSound r f k = bind-Keeps IsSound (lift r) f (λ s i. i) k

  pub network-KeepsSound {ℓ κ} :
      {A : Type ℓ} {B : Type κ} (call : Exec W A) (f : A → Exec (State W) B)
      → ((a : A) → KeepsSound (f a))
      → KeepsSound (on_network call >>= f)
  network-KeepsSound call f k = bind-Keeps IsSound (on_network call) f (λ s i. i) k

  -- A change of the cache that leaves a sound one, if it succeeds
  pub write_cache-KeepsSound :
      (call : Cache → Result Cache)
      → ((c d : Cache) → IsSound c → call c ≡ ok d → IsSound d)
      → KeepsSound (write_cache call)
  write_cache-KeepsSound call keeps s sound = kept (call s.cache) refl
    where
      kept : (r : Result Cache) → call s.cache ≡ r → IsSound (end_commit s r).1.cache
      kept (ok c) e = keeps s.cache c sound e
      kept (err x) e = sound
