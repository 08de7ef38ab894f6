-- ===== src/Base/Decimal.antt =====
-- Decimal numbers in text: `\d+`, `int(…)` and `str(n)`.
pub mod Laws
use Prim.Native.String
use text.Mathlib.TextLemmas.{cons-append, nil-append}
use k_dash.Base.Tests.{ltb, leb, nat_eq, if◌then◌else◌}
use k_dash.Base.Lists.{All, length}
use k_dash.Base.Text.{AllChars, is_space}
use Prim.Native.Nat.{ℕ, zero, suc, ◌+◌, ◌-◌, ◌*◌, ◌/◌, ◌%◌, ◌<◌, ◌≤◌}
use Prim.Native.Char.{Char, code}
use Prim.Native.String.{String, ◌++◌}
use mathlib.Core.Path.{◌≡◌, refl, ap}
use mathlib.Core.Logic.{◌≢◌}
use mathlib.Core.Bool.{Bool, true, false, ◌&&◌}
use mathlib.Core.Option.{Option, none, some}
use mathlib.Core.List.{List, [], ◌∷◌}
use native.Mathlib.Omega.{arith}

-- The code points of the zeros of Unicode's decimal digits; the other nine follow each.
abbrev pub zeros : List ℕ
zeros =
    0x30 ∷ 0x660 ∷ 0x6f0 ∷ 0x7c0 ∷ 0x966 ∷ 0x9e6 ∷ 0xa66 ∷ 0xae6 ∷ 0xb66 ∷ 0xbe6 ∷ 0xc66 ∷ 0xce6
    ∷ 0xd66 ∷ 0xde6 ∷ 0xe50 ∷ 0xed0 ∷ 0xf20 ∷ 0x1040 ∷ 0x1090 ∷ 0x17e0 ∷ 0x1810 ∷ 0x1946 ∷ 0x19d0
    ∷ 0x1a80 ∷ 0x1a90 ∷ 0x1b50 ∷ 0x1bb0 ∷ 0x1c40 ∷ 0x1c50 ∷ 0xa620 ∷ 0xa8d0 ∷ 0xa900 ∷ 0xa9d0
    ∷ 0xa9f0 ∷ 0xaa50 ∷ 0xabf0 ∷ 0xff10 ∷ 0x104a0 ∷ 0x10d30 ∷ 0x11066 ∷ 0x110f0 ∷ 0x11136 ∷ 0x111d0
    ∷ 0x112f0 ∷ 0x11450 ∷ 0x114d0 ∷ 0x11650 ∷ 0x116c0 ∷ 0x11730 ∷ 0x118e0 ∷ 0x11950 ∷ 0x11c50
    ∷ 0x11d50 ∷ 0x11da0 ∷ 0x16a60 ∷ 0x16ac0 ∷ 0x16b50 ∷ 0x1d7ce ∷ 0x1d7d8 ∷ 0x1d7e2 ∷ 0x1d7ec
    ∷ 0x1d7f6 ∷ 0x1e140 ∷ 0x1e2f0 ∷ 0x1e950 ∷ 0x1fbf0 ∷ []

unfoldable pub digit_from : List ℕ → ℕ → Option ℕ
digit_from [] c = none
digit_from (z ∷ zs) c = if leb z c && ltb c (z + 10) then some (c - z) else digit_from zs c

-- The value of a character that `\d` matches.
unfoldable pub digit_value : Char → Option ℕ
unfolding digit_from
digit_value c = digit_from zeros (code c)

-- The digits at the front of the text, and the rest.
unfoldable pub take_digits : String → List ℕ × String
unfolding digit_value
take_digits String.[] = ([], String.[])
take_digits (String.◌∷◌ c s) =
    let (ds, rest) = take_digits s in
    elim (digit_value c) [ none ↦ ([], String.◌∷◌ c s) | some d ↦ (d ∷ ds, rest) ]

-- `int(…)` of digits
unfoldable pub number_from : ℕ → List ℕ → ℕ
number_from acc [] = acc
number_from acc (d ∷ ds) = number_from (acc * 10 + d) ds

abbrev pub number : List ℕ → ℕ
number ds = number_from 0 ds

abbrev pub digit_char : ℕ → Char
digit_char n =
    if nat_eq n 0
    then "0"
    else if nat_eq n 1
    then "1"
    else if nat_eq n 2
    then "2"
    else if nat_eq n 3
    then "3"
    else if nat_eq n 4
    then "4"
    else if nat_eq n 5
    then "5"
    else if nat_eq n 6
    then "6"
    else if nat_eq n 7
    then "7"
    else if nat_eq n 8
    then "8"
    else "9"

-- The digits of a number, in front of those of a smaller place. The fuel is above the number.
unfoldable pub decimal_from : ℕ → ℕ → List ℕ → List ℕ
decimal_from zero n acc = acc
decimal_from (suc f) n acc =
    let rest = decimal_from f (n / 10) ((n % 10) ∷ acc) in if ltb n 10 then n ∷ acc else rest

abbrev pub decimal : ℕ → List ℕ
decimal n = decimal_from (suc n) n []

abbrev pub digits_text : List ℕ → String
digits_text [] = String.[]
digits_text (d ∷ ds) = String.◌∷◌ (digit_char d) (digits_text ds)

-- `str(n)`
abbrev pub show : ℕ → String
show n = digits_text (decimal n)
