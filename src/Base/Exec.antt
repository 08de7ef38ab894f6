-- ===== src/Base/Exec.antt =====
-- Methods that change a state and may raise: what was done before a raise stays done.
use mathlib.Core.Path.{◌≡◌, refl, ◌∙◌}
use mathlib.Core.Bool.{Bool, true, false}
use k_dash.Base.Tests.{if◌then◌else◌}
use k_dash.Base.Errors.{Error, Result, ok, err}

abbrev pub Exec {ℓ} : Type 0 → Type ℓ → Type ℓ
Exec S A = S → Result A × S

module _ {ℓ} {S : Type 0} {A : Type ℓ} where
  abbrev pub pure : A → Exec S A
  pure a s = (ok a, s)

  abbrev pub lift : Result A → Exec S A
  lift r s = (r, s)

  abbrev pub fail : Error → Exec S A
  fail e s = (err e, s)

abbrev pub continue {ℓ κ} :
    {S : Type 0} {A : Type ℓ} {B : Type κ} → (A → Exec S B) → Result A × S → Result B × S
continue f (ok a, s) = f a s
continue f (err e, s) = (err e, s)

infixl 5 ◌>>=◌ ◌>>◌
abbrev pub ◌>>=◌ {ℓ κ} :
    {S : Type 0} {A : Type ℓ} {B : Type κ} → Exec S A → (A → Exec S B) → Exec S B
◌>>=◌ m f s = continue f (m s)

abbrev pub ◌>>◌ {κ} : {S : Type 0} {B : Type κ} → Exec S (Unit {0}) → Exec S B → Exec S B
m >> k = m >>= λ _. k

abbrev handle {ℓ} : {S : Type 0} {A : Type ℓ} → (Error → Exec S A) → Result A × S → Result A × S
handle h (ok a, s) = (ok a, s)
handle h (err e, s) = h e s

-- `try: m` with one handler for every exception; the handler goes on from the state that `m` left.
abbrev pub catch {ℓ} : {S : Type 0} {A : Type ℓ} → Exec S A → (Error → Exec S A) → Exec S A
catch m h s = handle h (m s)

abbrev pub after {ℓ} : {S : Type 0} {A : Type ℓ} → Result A → Result (Unit {0}) × S → Result A × S
after r (ok u, s) = (r, s)
after r (err e, s) = (err e, s)

-- `try: m finally: cleanup`: what the cleanup raises takes the place of the result.
abbrev pub finally {ℓ} : {S : Type 0} {A : Type ℓ} → Exec S A → Exec S (Unit {0}) → Exec S A
finally m cleanup s = after (m s).0 (cleanup (m s).1)

-- Calls that leave a part of the state as it is, whatever they return or raise.
module _ {S : Type 0} {X : Type 0} (part : S → X) where
  abbrev pub Leaves {ℓ} : {A : Type ℓ} → Exec S A → Type 0
  Leaves m = (s : S) → part (m s).1 ≡ part s

  pub bind-Leaves {ℓ κ} :
      {A : Type ℓ} {B : Type κ} (m : Exec S A) (f : A → Exec S B)
      → Leaves m
      → ((a : A) → Leaves (f a))
      → Leaves (m >>= f)
  bind-Leaves {A = A} {B = B} m f p q s = go (m s) (p s)
    where
      go : (r : Result A × S) → part r.1 ≡ part s → part (continue f r).1 ≡ part s
      go (ok a, t) e = q a t ∙ e
      go (err x, t) e = e

  pub catch-Leaves {ℓ} :
      {A : Type ℓ} (m : Exec S A) (handler : Error → Exec S A)
      → Leaves m
      → ((e : Error) → Leaves (handler e))
      → Leaves (catch m handler)
  catch-Leaves {A = A} m handler p q s = go (m s) (p s)
    where
      go : (r : Result A × S) → part r.1 ≡ part s → part (handle handler r).1 ≡ part s
      go (ok a, t) e = e
      go (err x, t) e = q x t ∙ e

  pub choose-Leaves {ℓ} :
      {A : Type ℓ} (b : Bool) (m n : Exec S A) → Leaves m → Leaves n → Leaves (if b then m else n)
  choose-Leaves true m n p q = p
  choose-Leaves false m n p q = q

-- How a `do` block that returned a value has run, step by step.
module _ {ℓ κ μ} {S : Type 0} {A : Type ℓ} {B : Type κ} {R : Type μ} where
  pub on_step :
      (m : Exec S A) (f : A → Exec S B) (s : S) {b : B}
      → ((m >>= f) s).0 ≡ ok b
      → ((a : A) (t : S) → m s ≡ (ok a, t) → (f a t).0 ≡ ok b → R)
      → R
  on_step m f s {b} h k = go (m s) refl h
    where
      go : (r : Result A × S) → m s ≡ r → (continue f r).0 ≡ ok b → R
      go (ok a, t) e h' = k a t e h'
      go (err x, t) e h' = cc

  pub on_lift :
      (r : Result A) (f : A → Exec S B) (s : S) {b : B}
      → ((lift r >>= f) s).0 ≡ ok b
      → ((a : A) → r ≡ ok a → (f a s).0 ≡ ok b → R)
      → R
  on_lift (ok a) f s h k = k a refl h
  on_lift (err x) f s h k = cc

  -- The same with the state at the end.
  pub on_run :
      (m : Exec S A) (f : A → Exec S B) (s : S) {b : B} {end : S}
      → (m >>= f) s ≡ (ok b, end)
      → ((a : A) (t : S) → m s ≡ (ok a, t) → f a t ≡ (ok b, end) → R)
      → R
  on_run m f s {b} {end} h k = go (m s) refl h
    where
      go : (r : Result A × S) → m s ≡ r → continue f r ≡ (ok b, end) → R
      go (ok a, t) e g = k a t e g
      go (err x, t) e g = cc

  -- A step that only computes leaves the state as it is.
  pub on_lifted :
      (r : Result A) (f : A → Exec S B) (s : S) {b : B} {end : S}
      → (lift r >>= f) s ≡ (ok b, end)
      → ((a : A) → r ≡ ok a → f a s ≡ (ok b, end) → R)
      → R
  on_lifted (ok a) f s h k = k a refl h
  on_lifted (err x) f s h k = cc
