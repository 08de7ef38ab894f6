-- ===== src/Base/Decimal/Laws.antt =====
-- Printing a number in decimal and reading it back.
use Prim.Native.Nat.{ℕ, zero, suc, ◌+◌, ◌*◌, ◌/◌, ◌%◌, ◌<◌}
use Prim.Native.Char.{Char, code}
use Prim.Native.String.{String, ◌++◌}
use mathlib.Core.Path.{◌≡◌, refl, ap, ◌∙◌}
use mathlib.Core.Logic.{◌≢◌, inl, inr}
use mathlib.Core.Bool.{false}
use mathlib.Core.Option.{none, some}
use mathlib.Core.List.{List, [], ◌∷◌, ◌++◌ as append}
use native.Mathlib.Omega.{arith}
use text.Mathlib.TextLemmas.{cons-append, nil-append}
use k_dash.Base.Tests.{Option-cases}
use k_dash.Base.Lists.{All}
use k_dash.Base.Text.{AllChars, is_space}
use k_dash.Base.Decimal.{
  zeros, digit_from, digit_value, take_digits, number_from, number, digit_char, decimal_from,
  decimal, digits_text, show,
}

abbrev pub AreDigits : List ℕ → Type 0
AreDigits ds = All (λ d. d < 10) ds

-- Ten values, checked one by one.
ten_cases :
    (P : ℕ → Type 0) (d : ℕ)
    → P 0
    → P 1
    → P 2
    → P 3
    → P 4
    → P 5
    → P 6
    → P 7
    → P 8
    → P 9
    → d < 10
    → P d
ten_cases P zero a0 a1 a2 a3 a4 a5 a6 a7 a8 a9 h = a0
ten_cases P (suc zero) a0 a1 a2 a3 a4 a5 a6 a7 a8 a9 h = a1
ten_cases P (suc (suc zero)) a0 a1 a2 a3 a4 a5 a6 a7 a8 a9 h = a2
ten_cases P (suc (suc (suc zero))) a0 a1 a2 a3 a4 a5 a6 a7 a8 a9 h = a3
ten_cases P (suc (suc (suc (suc zero)))) a0 a1 a2 a3 a4 a5 a6 a7 a8 a9 h = a4
ten_cases P (suc (suc (suc (suc (suc zero))))) a0 a1 a2 a3 a4 a5 a6 a7 a8 a9 h = a5
ten_cases P (suc (suc (suc (suc (suc (suc zero)))))) a0 a1 a2 a3 a4 a5 a6 a7 a8 a9 h = a6
ten_cases P (suc (suc (suc (suc (suc (suc (suc zero))))))) a0 a1 a2 a3 a4 a5 a6 a7 a8 a9 h = a7
ten_cases P (suc (suc (suc (suc (suc (suc (suc (suc zero)))))))) a0 a1 a2 a3 a4 a5 a6 a7 a8 a9 h =
    a8
ten_cases P (suc (suc (suc (suc (suc (suc (suc (suc (suc zero))))))))) a0 a1 a2 a3 a4 a5 a6 a7 a8 a9
      h =
    a9
ten_cases P (suc (suc (suc (suc (suc (suc (suc (suc (suc (suc n)))))))))) a0 a1 a2 a3 a4 a5 a6 a7 a8
      a9 h =
    absurd (omega arith)

pub digit_value-digit_char : (d : ℕ) → d < 10 → digit_value (digit_char d) ≡ some d
unfolding digit_value
digit_value-digit_char d h =
    ten_cases (λ n. digit_value (digit_char n) ≡ some n) d refl refl refl refl refl refl refl refl
      refl refl h

-- Text that starts with no digit.
abbrev pub NoDigitFirst : String → Type 0
NoDigitFirst String.[] = Unit
NoDigitFirst (String.◌∷◌ c s) = digit_value c ≡ none

take_digits_of_none : (s : String) → NoDigitFirst s → take_digits s ≡ ([], s)
unfolding take_digits
take_digits_of_none String.[] h = refl
take_digits_of_none (String.◌∷◌ c s) h = rw (h, take_digits)

take_digits-cons :
    (c : Char) (d : ℕ) (s : String)
    → digit_value c ≡ some d
    → take_digits (String.◌∷◌ c s) ≡ (d ∷ (take_digits s).0, (take_digits s).1)
unfolding take_digits
take_digits-cons c d s e = rw (e, take_digits)

-- Reading digits stops where they end.
pub take_digits-append :
    (ds : List ℕ) (rest : String)
    → AreDigits ds
    → NoDigitFirst rest
    → take_digits (digits_text ds ++ rest) ≡ (ds, rest)
unfolding take_digits
take_digits-append [] rest h n = rw nil-append (take_digits_of_none rest n)
take_digits-append (d ∷ ds) rest (p, h) n = rw cons-append (
    take_digits-cons (digit_char d) d (digits_text ds ++ rest) (digit_value-digit_char d p)
    ∙ ap (λ (r : List ℕ × String). (d ∷ r.0, r.1)) (take_digits-append ds rest h n))

pub decimal_from-AreDigits :
    (f n : ℕ) (acc : List ℕ) → AreDigits acc → AreDigits (decimal_from f n acc)
unfolding decimal_from
decimal_from-AreDigits zero n acc h = h
decimal_from-AreDigits (suc f) n acc h =
    ground (arith, h, decimal_from-AreDigits f (n / 10) ((n % 10) ∷ acc) (omega arith, h))

div_mod : (n : ℕ) → n / 10 * 10 + n % 10 ≡ n
div_mod n = omega arith

zero_first : (n : ℕ) → 0 * 10 + n ≡ n
zero_first n = omega arith

number-decimal_from :
    (f n : ℕ) (acc : List ℕ) → n < f → number (decimal_from f n acc) ≡ number_from n acc
unfolding decimal_from number_from
number-decimal_from zero n acc h = absurd (omega arith)
number-decimal_from (suc f) n acc h = ground (
  arith,
  number-decimal_from f (n / 10) ((n % 10) ∷ acc),
  ap (λ m. number_from m acc) (div_mod n),
  ap (λ m. number_from m acc) (zero_first n),
)

pub number-decimal : (n : ℕ) → number (decimal n) ≡ n
unfolding number_from
number-decimal n = number-decimal_from (suc n) n [] (omega arith)

pub digits_text_no_space :
    (ds : List ℕ) → AreDigits ds → AllChars (λ c. is_space c ≡ false) (digits_text ds)
digits_text_no_space [] h = tt
digits_text_no_space (d ∷ ds) (p, h) = (
  ten_cases (λ n. is_space (digit_char n) ≡ false) d refl refl refl refl refl refl refl refl refl
      refl p,
  digits_text_no_space ds h,
)

decimal_from-ne-nil : (f n : ℕ) (acc : List ℕ) → n < f → decimal_from f n acc ≢ []
unfolding decimal_from
decimal_from-ne-nil zero n acc h = absurd (omega arith)
decimal_from-ne-nil (suc f) n acc h =
    ground (arith, decimal_from-ne-nil f (n / 10) ((n % 10) ∷ acc))

-- `str(n)` has at least one digit.
pub decimal-ne-nil : (n : ℕ) → decimal n ≢ []
decimal-ne-nil n = decimal_from-ne-nil (suc n) n [] (omega arith)

pub decimal-AreDigits : (n : ℕ) → AreDigits (decimal n)
decimal-AreDigits n = decimal_from-AreDigits (suc n) n [] tt

-- Reading back what was printed.
pub take_digits-show :
    (n : ℕ) (rest : String) → NoDigitFirst rest → take_digits (show n ++ rest) ≡ (decimal n, rest)
take_digits-show n rest h = take_digits-append (decimal n) rest (decimal-AreDigits n) h

pub digits_text-append :
    (xs ys : List ℕ) → digits_text (append xs ys) ≡ digits_text xs ++ digits_text ys
digits_text-append [] ys = rw nil-append
digits_text-append (x ∷ xs) ys = rw (cons-append, digits_text-append xs ys)

pub decimal_one : (d : ℕ) → d < 10 → decimal d ≡ d ∷ []
unfolding decimal_from
decimal_one d h = ground arith

digit_from-lt : (zs : List ℕ) (c d : ℕ) → digit_from zs c ≡ some d → d < 10
unfolding digit_from
digit_from-lt [] c d h = cc
digit_from-lt (z ∷ zs) c d h = ground (arith, digit_from-lt zs c d)

digit_value-lt : (c : Char) (d : ℕ) → digit_value c ≡ some d → d < 10
unfolding digit_value
digit_value-lt c d h = digit_from-lt zeros (code c) d h

take_digits-nil :
    (c : Char) (s : String)
    → digit_value c ≡ none
    → take_digits (String.◌∷◌ c s) ≡ ([], String.◌∷◌ c s)
take_digits-nil c s e = take_digits_of_none (String.◌∷◌ c s) e

pub take_digits-AreDigits : (s : String) → AreDigits (take_digits s).0
take_digits-AreDigits String.[] = unfold take_digits in tt
take_digits-AreDigits (String.◌∷◌ c s) = elim (Option-cases (digit_value c)) [
  | inl e ↦ rw (take_digits-nil c s e) tt
  | inr (d, e) ↦ rw (take_digits-cons c d s e) (digit_value-lt c d e, take_digits-AreDigits s)
]
