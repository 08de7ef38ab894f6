-- ===== src/Validation/Maximum.antt =====
-- The order of version tuples, and that the maximum is one.
use k_dash.Base.{
  ltb, ◌<◌, ◌⊎◌, ℕ, ◌≡◌, refl, sym, subst, String, Bool, true, false, List, [], ◌∷◌, keep, arith,
  All, if◌then◌else◌, some, Bool-cases, inl, inr,
}
use k_dash.Validation.Versions.{
  version_tuple, is_version, tuple_lt, max_version, max_of, maximum_version,
}

-- `a ≤ b` for tuples: the first components that differ decide, and a tuple is up to its extensions.
abbrev pub IsUpTo : List ℕ → List ℕ → Type 0
IsUpTo [] b = Unit
IsUpTo (x ∷ a) [] = ⊥
IsUpTo (x ∷ a) (y ∷ b) = (x < y) ⊎ ((x ≡ y) × IsUpTo a b)

-- What the code's comparison says of it
abbrev NotAbove : List ℕ → List ℕ → Type 0
NotAbove a b = tuple_lt b a ≡ false

tuple_lt_irrefl : (a : List ℕ) → NotAbove a a
unfolding tuple_lt
tuple_lt_irrefl [] = refl
tuple_lt_irrefl (x ∷ a) = ground (arith, tuple_lt_irrefl a)

tuple_lt_asym : (a b : List ℕ) → tuple_lt a b ≡ true → NotAbove a b
unfolding tuple_lt
tuple_lt_asym [] [] h = refl
tuple_lt_asym [] (y ∷ b) h = refl
tuple_lt_asym (x ∷ a) [] h = cc
tuple_lt_asym (x ∷ a) (y ∷ b) h = ground (arith, tuple_lt_asym a b)

NotAbove-trans : (a b c : List ℕ) → NotAbove a b → NotAbove b c → NotAbove a c
unfolding tuple_lt
NotAbove-trans a [] [] p q = p
NotAbove-trans [] b [] p q = refl
NotAbove-trans [] b (z ∷ c) p q = refl
NotAbove-trans (x ∷ a) [] (z ∷ c) p q = absurd (ground arith)
NotAbove-trans (x ∷ a) (y ∷ b) [] p q = cc
NotAbove-trans (x ∷ a) (y ∷ b) (z ∷ c) p q = ground (arith, NotAbove-trans a b c)

-- The value is up to the text m, and so are the members of the list.
abbrev AllNotAbove : (m : String) → List String → Type 0
AllNotAbove m vs = All (λ v. NotAbove (version_tuple v) (version_tuple m)) vs

max_version-AllNotAbove :
    (best : String) (vs : List String) → AllNotAbove (max_version best vs) (best ∷ vs)
unfolding max_version
max_version-AllNotAbove best [] = (tuple_lt_irrefl (version_tuple best), tt)
max_version-AllNotAbove best (v ∷ vs) =
    elim (Bool-cases (tuple_lt (version_tuple best) (version_tuple v))) [
      | inl t ↦
          let (a, rest) = max_version-AllNotAbove v vs in
          subst (λ b. AllNotAbove (max_version (if b then v else best) vs) (best ∷ v ∷ vs)) (sym t)
            (
              NotAbove-trans (version_tuple best) (version_tuple v)
                  (version_tuple (max_version v vs))
                  (tuple_lt_asym (version_tuple best) (version_tuple v) t) a,
              (a, rest),
            )
      | inr f ↦
          let (a, rest) = max_version-AllNotAbove best vs in
          subst (λ b. AllNotAbove (max_version (if b then v else best) vs) (best ∷ v ∷ vs)) (sym f)
            (
              a,
              (
                NotAbove-trans (version_tuple v) (version_tuple best)
                    (version_tuple (max_version best vs)) f a,
                rest,
              ),
            )
    ]

clash {ℓ} : {b : Bool} {R : Type ℓ} → b ≡ true → b ≡ false → R
clash p q = cc

keep-All {κ} :
    (P : String → Type κ) (p : String → Bool) (xs : List String)
    → All P (keep p xs)
    → All (λ x. p x ≡ true → P x) xs
keep-All P p [] h = tt
keep-All P p (x ∷ xs) h = elim (Bool-cases (p x)) [
  | inl t ↦
      let kept : All P (x ∷ keep p xs) =
        subst
          (λ b. All P (elim b as (λ _. List String) [ true ↦ x ∷ keep p xs | false ↦ keep p xs ])) t
          h in
      (λ _. kept.0, keep-All P p xs kept.1)
  | inr f ↦
      let kept : All P (keep p xs) =
        subst
          (λ b. All P (elim b as (λ _. List String) [ true ↦ x ∷ keep p xs | false ↦ keep p xs ])) f
          h in
      (λ t. clash t f, keep-All P p xs kept)
]

All_map {κ μ} :
    {P : String → Type κ} {Q : String → Type μ} (f : (v : String) → P v → Q v) (vs : List String)
    → All P vs
    → All Q vs
All_map f [] h = tt
All_map f (v ∷ vs) (h, hs) = (f v h, All_map f vs hs)

max_of-NotAbove :
    (vs : List String) (maximum : String)
    → ((m : String) → max_of vs ≡ some m → NotAbove (version_tuple m) (version_tuple maximum))
    → All (λ v. NotAbove (version_tuple v) (version_tuple maximum)) vs
max_of-NotAbove [] maximum h = tt
max_of-NotAbove (v ∷ vs) maximum h =
    let (a, rest) = max_version-AllNotAbove v vs in
    let top = h (max_version v vs) refl in
    (
      NotAbove-trans _ _ (version_tuple maximum) a top,
      All_map
          (λ u p.
            NotAbove-trans (version_tuple u) (version_tuple (max_version v vs))
              (version_tuple maximum) p top)
          vs rest,
    )

NotAbove-IsUpTo : (a b : List ℕ) → NotAbove a b → IsUpTo a b
unfolding tuple_lt
NotAbove-IsUpTo [] b h = tt
NotAbove-IsUpTo (x ∷ a) [] h = absurd (cc)
NotAbove-IsUpTo (x ∷ a) (y ∷ b) h = elim (Bool-cases (ltb x y)) [
  | inl t ↦ inl (ground (arith, t))
  | inr f ↦ inr (ground (arith, f), NotAbove-IsUpTo a b (ground (arith, f)))
]

-- Where the maximum is not above a ceiling, every version is up to it.
pub maximum_version-IsUpTo :
    (values : List String) (prefix maximum : String)
    → ((m : String)
        → maximum_version values prefix ≡ some m
        → tuple_lt (version_tuple maximum) (version_tuple m) ≡ false)
    → All
        (λ v. is_version prefix v ≡ true → IsUpTo (version_tuple v) (version_tuple maximum))
        values
unfolding maximum_version
maximum_version-IsUpTo values prefix maximum h =
    All_map (λ v f t. NotAbove-IsUpTo (version_tuple v) (version_tuple maximum) (f t)) values
      (keep-All (λ v. NotAbove (version_tuple v) (version_tuple maximum)) (is_version prefix) values
        (max_of-NotAbove (keep (is_version prefix) values) maximum h))
