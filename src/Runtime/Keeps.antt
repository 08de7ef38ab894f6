-- ===== src/Runtime/Keeps.antt =====
-- Calls that keep what is known of the cache, however they end.
use k_dash.Base.{Bool, true, false, Result, ok, err, if◌then◌else◌, Error}
use k_dash.Base.Exec.{Exec, fail, ◌>>=◌, continue}
use k_dash.Cache.{Cache}
use k_dash.Runtime.{State, is_access_failure, on_access_failure}
use k_dash.Runtime.Materialize.{}

module _ {W : Type 0} (I : Cache → Type 0) where
  abbrev pub Keeps {ℓ} : {A : Type ℓ} → Exec (State W) A → Type 0
  Keeps m = (s : State W) → I s.cache → I (m s).1.cache

  pub bind-Keeps {ℓ κ} :
      {A : Type ℓ} {B : Type κ} (m : Exec (State W) A) (f : A → Exec (State W) B)
      → Keeps m
      → ((a : A) → Keeps (f a))
      → Keeps (m >>= f)
  bind-Keeps {A = A} {B = B} m f p q s i = go (m s) (p s i)
    where
      go : (r : Result A × State W) → I r.1.cache → I (continue f r).1.cache
      go (ok a, t) j = q a t j
      go (err x, t) j = j

  pub catch-Keeps {ℓ} :
      {A : Type ℓ} (m : Exec (State W) A) (handler : Error → Exec (State W) A)
      → Keeps m
      → ((e : Error) → Keeps (handler e))
      → Keeps (on_access_failure m handler)
  catch-Keeps {A = A} m handler p q s i = go (m s) (p s i)
    where
      chosen : (e : Error) (b : Bool) → Keeps (if b then handler e else fail e)
      chosen e true t j = q e t j
      chosen e false t j = j

      go : (r : Result A × State W) → I r.1.cache → I (on_access_failure (λ _. r) handler s).1.cache
      go (ok a, t) j = j
      go (err x, t) j = chosen x (is_access_failure x) t j

  pub choose-Keeps :
      {A : Type 0} (b : Bool) (m n : Exec (State W) A)
      → Keeps m
      → Keeps n
      → Keeps (if b then m else n)
  choose-Keeps true m n p q = p
  choose-Keeps false m n p q = q
