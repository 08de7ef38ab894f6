-- ===== src/Base/Lists/Laws.antt =====
-- Predicates on all members and distinct texts, for a list with one more member and for what `keep` leaves.
use k_dash.Base.{
  ◌≡◌, refl, String, Bool, true, false, ◌||◌, List, [], ◌∷◌, ◌++◌, ◌==◌, eq_iff, All, keep,
  contains, IsDistinct, arith,
}

pub contains-append :
    (xs : List String) (k x : String) → contains (xs ++ k ∷ []) x ≡ (x == k || contains xs x)
contains-append [] k x = refl
contains-append (y ∷ xs) k x = ground (arith, contains-append xs k x)

pub IsDistinct-append :
    (xs : List String) (k : String)
    → IsDistinct xs
    → contains xs k ≡ false
    → IsDistinct (xs ++ k ∷ [])
IsDistinct-append [] k d h = (refl, tt)
IsDistinct-append (x ∷ xs) k d h = (
  ground (arith, contains-append xs k x, eq_iff x k, eq_iff k x, d.0),
  IsDistinct-append xs k d.1 (ground arith),
)

pub All-append {ℓ} :
    {A : Type 0} (P : A → Type ℓ) (xs : List A) (x : A) → All P xs → P x → All P (xs ++ x ∷ [])
All-append P [] x h p = (p, tt)
All-append P (y ∷ xs) x h p = (h.0, All-append P xs x h.1 p)

pub All-keep {ℓ} :
    {A : Type ℓ} (P Q : A → Type 0) (q : A → Bool) (l : List A)
    → ((x : A) → P x → q x ≡ true → Q x)
    → All P l
    → All Q (keep q l)
All-keep P Q q [] f h = tt
All-keep {A = A} P Q q (x ∷ l) f h = go (q x) refl (All-keep P Q q l f h.1)
  where
    go :
        (b : Bool)
        → q x ≡ b
        → All Q (keep q l)
        → All Q (elim b as (λ _. List A) [ true ↦ x ∷ keep q l | false ↦ keep q l ])
    go true e rest = (f x h.0 e, rest)
    go false e rest = rest

pub All-weaken {ℓ} :
    {A : Type ℓ} (P Q : A → Type 0) (l : List A) → ((x : A) → P x → Q x) → All P l → All Q l
All-weaken P Q [] f h = tt
All-weaken P Q (x ∷ l) f h = (f x h.0, All-weaken P Q l f h.1)
