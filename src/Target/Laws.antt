-- ===== src/Target/Laws.antt =====
-- The normal forms of CUDA versions and compute capabilities, and why a target that is detected at
-- load time is the one that an explicit build for the same machine names.
use text.Mathlib.TextLemmas.{append_assoc, cons-append, nil-append, append-nil}
use k_dash.Base.{
  contract, Option-cases, ℕ, ◌<◌, ◌≡◌, ◌≢◌, ◌∙◌, sym, ap, refl, subst, ap₂, String, ◌<>◌, Char,
  true, false, not, ◌&&◌, Option, none, some, List, [], ◌∷◌, ◌++◌, ◌==◌, eq_iff, leb, ltb,
  if◌then◌else◌, ok, raise, arith, if-eq-ok, Bool-cases, inl, inr,
}
use k_dash.Base.Lists.Laws.{All-append}
use k_dash.Base.Text.{
  strip, strip_prefix, strip_prefix-append, is_space, AllChars, AllChars-append, strip_of_none,
}
use k_dash.Base.Decimal.{digit_value, take_digits, number, digits_text, decimal, show}
use k_dash.Base.Decimal.Laws.{
  AreDigits, NoDigitFirst, take_digits-show, take_digits-append, decimal-ne-nil, number-decimal,
  decimal-AreDigits, digits_text_no_space, digits_text-append, decimal_one, take_digits-AreDigits,
}
use k_dash.Target.{
  some_digits, match_digits, ◌>>?◌, match_version, is_patch, cuda_text, cuda_of,
  normalize_cuda_version, split_last, match_suffix, match_cc, cc_text, cc_of, normalize_cc,
  detected_cc,
}

some_digits-ne-nil :
    (ds : List ℕ) (rest : String) → ds ≢ [] → some_digits (ds, rest) ≡ some (ds, rest)
some_digits-ne-nil [] rest h = absurd (h refl)
some_digits-ne-nil (d ∷ ds) rest h = refl

match_digits-show :
    (n : ℕ) (rest : String)
    → NoDigitFirst rest
    → match_digits (show n <> rest) ≡ some (decimal n, rest)
match_digits-show n rest h =
    ap some_digits (take_digits-show n rest h)
    ∙ some_digits-ne-nil (decimal n) rest (decimal-ne-nil n)

one-append : (c : Char) (s : String) → String.◌∷◌ c String.[] <> s ≡ String.◌∷◌ c s
one-append c s = cons-append c String.[] s ∙ ap (String.◌∷◌ c) (nil-append s)

dot_no_digit : digit_value "." ≡ none
unfolding digit_value
dot_no_digit = refl

match_digits-show_end : (n : ℕ) → match_digits (show n) ≡ some (decimal n, "")
match_digits-show_end n = ap match_digits (sym (append-nil (show n))) ∙ match_digits-show n "" tt

match_version-cuda_text :
    (a b : ℕ) → match_version (cuda_text a b) ≡ some (decimal a, decimal b, "")
match_version-cuda_text a b =
    let e : cuda_text a b ≡ show a <> String.◌∷◌ "." (show b) =
      ap (λ t. show a <> t) (one-append "." (show b)) in
    let p = match_digits-show a (String.◌∷◌ "." (show b)) dot_no_digit in
    ap match_version e ∙ ground (arith, p, match_digits-show_end b)

show_no_space : (n : ℕ) → AllChars (λ c. is_space c ≡ false) (show n)
show_no_space n = digits_text_no_space (decimal n) (decimal-AreDigits n)

strip-cuda_text : (a b : ℕ) → strip is_space (cuda_text a b) ≡ cuda_text a b
strip-cuda_text a b = strip_of_none is_space (cuda_text a b) (
    AllChars-append _ (show a) ("." <> show b) (show_no_space a)
      (AllChars-append _ "." (show b) (refl, tt) (show_no_space b)))

normalize-cuda_text : (a b : ℕ) → normalize_cuda_version (cuda_text a b) ≡ ok (cuda_text a b)
unfolding normalize_cuda_version
normalize-cuda_text a b = rw (strip-cuda_text a b) (
    ap cuda_of (match_version-cuda_text a b)
    ∙ ap₂ (λ (x y : ℕ). ok (cuda_text x y)) (number-decimal a) (number-decimal b))

cuda_of-eq-ok :
    (m : Option (List ℕ × List ℕ × String)) {r : String}
    → cuda_of m ≡ ok r
    → (a : ℕ) × (b : ℕ) × (r ≡ cuda_text a b)
cuda_of-eq-ok none h = cc
cuda_of-eq-ok (some (ds, es, rest)) h = (number ds, number es, (if-eq-ok (is_patch rest) _ _ h).1)

-- A normalised CUDA version is its own normal form.
pub normalize_cuda_version_idem :
    (value : String) {r : String}
    → normalize_cuda_version value ≡ ok r
    → normalize_cuda_version r ≡ ok r
unfolding normalize_cuda_version
normalize_cuda_version_idem value {r} h =
    let (a, b, e) = cuda_of-eq-ok (match_version (strip is_space value)) h in
    subst (λ t. normalize_cuda_version t ≡ ok t) (sym e) (normalize-cuda_text a b)

split_last-append : (xs : List ℕ) (d : ℕ) → xs ≢ [] → split_last (xs ++ d ∷ []) ≡ some (xs, d)
split_last-append [] d h = absurd (h refl)
split_last-append (x ∷ []) d h = refl
split_last-append (x ∷ y ∷ xs) d h = ground (arith, split_last-append (y ∷ xs) d)

split_last-lt :
    (ds : List ℕ) {init : List ℕ} {d : ℕ} → AreDigits ds → split_last ds ≡ some (init, d) → d < 10
split_last-lt [] h e = cc
split_last-lt (x ∷ []) h e = cc
split_last-lt (x ∷ y ∷ []) h e = ground (arith, h)
split_last-lt (x ∷ y ∷ z ∷ ds) {init} {d} h e = elim (Option-cases (split_last (y ∷ z ∷ ds))) [
  | inl p ↦ absurd (ground arith)
  | inr ((i, l), p) ↦
      let same : l ≡ d = ground arith in
      subst (λ (k : ℕ). k < 10) same (split_last-lt (y ∷ z ∷ ds) h.1 p)
]

-- The suffix that the compute capability asks for.
abbrev suffix_of : ℕ → String
suffix_of major = if leb 9 major then "a" else ""

match_suffix-suffix_of : (major : ℕ) → match_suffix (suffix_of major) ≡ some (suffix_of major)
match_suffix-suffix_of major = elim (Bool-cases (leb 9 major)) [
  | inl e ↦ rw e refl
  | inr e ↦ rw e refl
]

suffix_no_digit : (major : ℕ) → NoDigitFirst (suffix_of major)
suffix_no_digit major = elim (Bool-cases (leb 9 major)) [
  | inl e ↦ rw e (unfold digit_value in refl)
  | inr e ↦ rw e tt
]

cc_digits :
    (major minor : ℕ)
    → minor < 10
    → show major <> (show minor <> suffix_of major)
      ≡ digits_text (decimal major ++ minor ∷ []) <> suffix_of major
cc_digits major minor h =
    rw (decimal_one minor h, digits_text-append (decimal major) (minor ∷ []))
      (sym (append_assoc (show major) (digits_text (minor ∷ [])) (suffix_of major)))

append_one-ne-nil : (xs : List ℕ) (d : ℕ) → xs ++ d ∷ [] ≢ []
append_one-ne-nil [] d h = cc
append_one-ne-nil (x ∷ xs) d h = cc

match_digits-cc :
    (major minor : ℕ)
    → minor < 10
    → match_digits (show major <> (show minor <> suffix_of major))
      ≡ some (decimal major ++ minor ∷ [], suffix_of major)
match_digits-cc major minor h = rw (cc_digits major minor h) (
    ap some_digits (
      take_digits-append (decimal major ++ minor ∷ []) (suffix_of major)
        (All-append (λ d. d < 10) (decimal major) minor (decimal-AreDigits major) h)
        (suffix_no_digit major))
    ∙ some_digits-ne-nil _ (suffix_of major) (append_one-ne-nil (decimal major) minor))

match_cc-detected_cc :
    (major minor : ℕ)
    → minor < 10
    → match_cc (detected_cc (major, minor)) ≡ some (decimal major, minor, suffix_of major)
match_cc-detected_cc major minor h = ground (
  arith,
  strip_prefix-append "sm_" (show major <> (show minor <> suffix_of major)),
  match_digits-cc major minor h,
  split_last-append (decimal major) minor (decimal-ne-nil major),
  match_suffix-suffix_of major,
)

cc_of_suffix :
    (major minor : ℕ)
    → (if leb 9 major && not (suffix_of major == "a")
        then raise contract "CC 9.0 and newer require architecture-specific a target" "target"
        else if ltb major 9 && not (suffix_of major == "")
        then raise contract "pre-9.0 CC must not use an architecture suffix" "target"
        else ok (cc_text major minor (suffix_of major)))
      ≡ ok (detected_cc (major, minor))
cc_of_suffix major minor = elim (Bool-cases (leb 9 major)) [
  | inl e ↦ let q : ltb major 9 ≡ false = ground arith in rw (e, q) refl
  | inr e ↦ let q : ltb major 9 ≡ true = ground arith in rw (e, q) refl
]

-- A compute capability that is detected on a GPU passes `normalize_cc` unchanged.
pub normalize_cc-detected_cc :
    (major minor : ℕ)
    → minor < 10
    → normalize_cc (detected_cc (major, minor)) ≡ ok (detected_cc (major, minor))
unfolding normalize_cc
normalize_cc-detected_cc major minor h =
    ap cc_of (match_cc-detected_cc major minor h)
    ∙ rw (number-decimal major) (cc_of_suffix major minor)

cc_of-eq-ok :
    (ds : List ℕ) (minor : ℕ) (suffix : String) {r : String}
    → cc_of (some (ds, minor, suffix)) ≡ ok r
    → r ≡ detected_cc (number ds, minor)
cc_of-eq-ok ds minor suffix h = ground (arith, eq_iff suffix "a", eq_iff suffix "")

>>?-eq-some {ℓ κ} :
    {A : Type ℓ} {B : Type κ} (m : Option A) (f : A → Option B) {b : B}
    → (m >>? f) ≡ some b
    → (a : A) × (m ≡ some a) × (f a ≡ some b)
>>?-eq-some none f h = cc
>>?-eq-some (some a) f h = (a, refl, h)

some_digits-AreDigits :
    (p : List ℕ × String) {m : List ℕ × String}
    → AreDigits p.0
    → some_digits p ≡ some m
    → AreDigits m.0
some_digits-AreDigits ([], rest) a h = cc
some_digits-AreDigits (d ∷ ds, rest) {m} a h =
    let e : (d ∷ ds, rest) ≡ m = cc in subst (λ x. AreDigits x.0) e a

abbrev minor_of : Option (List ℕ × ℕ × String) → ℕ
minor_of none = 0
minor_of (some m) = m.1

match_digits-AreDigits :
    (s : String) {m : List ℕ × String} → match_digits s ≡ some m → AreDigits m.0
match_digits-AreDigits s {m} h = some_digits-AreDigits (take_digits s) (take_digits-AreDigits s) h

match_cc-lt : (value : String) {m : List ℕ × ℕ × String} → match_cc value ≡ some m → m.1 < 10
match_cc-lt value {m} h =
    let (rest, e, h1) = >>?-eq-some (strip_prefix "sm_" value) _ h in
    let ((ds, after), d, h2) = >>?-eq-some (match_digits rest) _ h1 in
    let ((major, minor), p, h3) = >>?-eq-some (split_last ds) _ h2 in
    let (suffix, q, h4) = >>?-eq-some (match_suffix after) _ h3 in
    let same : minor ≡ m.1 = ap (λ (o : Option (List ℕ × ℕ × String)). minor_of o) h4 in
    subst (λ (k : ℕ). k < 10) same (split_last-lt ds (match_digits-AreDigits rest d) p)

-- What `normalize_cc` accepts is written as the compute capability that a GPU reports.
pub normalize_cc-eq-ok :
    (value : String) {r : String}
    → normalize_cc value ≡ ok r
    → (major : ℕ) × (minor : ℕ) × (minor < 10) × (r ≡ detected_cc (major, minor))
unfolding normalize_cc
normalize_cc-eq-ok value h = elim (Option-cases (match_cc value)) [
  | inl e ↦ absurd (ground arith)
  | inr ((ds, minor, suffix), e) ↦
      (number ds, minor, match_cc-lt value e, cc_of-eq-ok ds minor suffix (rw e at h))
]

-- A normalised compute capability is its own normal form.
pub normalize_cc_idem :
    (value : String) {r : String} → normalize_cc value ≡ ok r → normalize_cc r ≡ ok r
normalize_cc_idem value h =
    let (major, minor, digit, e) = normalize_cc-eq-ok value h in
    subst (λ t. normalize_cc t ≡ ok t) (sym e) (normalize_cc-detected_cc major minor digit)
