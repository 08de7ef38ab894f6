-- ===== src/Base/Text.antt =====
-- Python's `str` methods that the program calls: `removeprefix`, `startswith`, `strip`, `replace` of
-- one character, over code points.
use Prim.Native.Char.{Char, code}
use Prim.Native.String.{String, [], ◌∷◌, ◌++◌}
use mathlib.Core.Path.{◌≡◌, refl}
use mathlib.Core.Bool.{Bool, true, false, ◌&&◌, ◌||◌}
use mathlib.Core.Option.{Option, none, some}
use native.Mathlib.Omega.{arith}
use text.Mathlib.TextEquality.{Char-path}
use text.Mathlib.TextLemmas.{cons-append, nil-append}
use k_dash.Base.Tests.{nat_eq, leb, if◌then◌else◌}

-- The rest of the text after a prefix, if it starts so.
unfoldable pub strip_prefix : String → String → Option String
strip_prefix [] s = some s
strip_prefix (c ∷ p) [] = none
strip_prefix (c ∷ p) (d ∷ s) = if nat_eq (code c) (code d) then strip_prefix p s else none

-- `s.startswith(prefix)`
abbrev pub starts_with : String → String → Bool
starts_with s prefix = elim (strip_prefix prefix s) [ none ↦ false | some _ ↦ true ]

-- `s.removeprefix(prefix)`
abbrev pub remove_prefix : String → String → String
remove_prefix s prefix = elim (strip_prefix prefix s) [ none ↦ s | some rest ↦ rest ]

pub strip_prefix-append : (p s : String) → strip_prefix p (p ++ s) ≡ some s
unfolding strip_prefix
strip_prefix-append [] s = rw nil-append
strip_prefix-append (c ∷ p) s = rw cons-append (ground (arith, strip_prefix-append p s))

pub append-strip_prefix : (p s r : String) → strip_prefix p s ≡ some r → s ≡ p ++ r
unfolding strip_prefix
append-strip_prefix [] s r h = rw nil-append (cc)
append-strip_prefix (c ∷ p) [] r h = cc
append-strip_prefix (c ∷ p) (d ∷ s) r h =
    rw cons-append
      (ground (arith, append-strip_prefix p s r, λ (e : code c ≡ code d). Char-path c d e))

-- `s.replace(old, new)` for a single character `old`
unfoldable pub replace_char : Char → String → String → String
replace_char old new [] = []
replace_char old new (c ∷ s) =
    if nat_eq (code c) (code old) then new ++ replace_char old new s else c ∷ replace_char old new s

-- `s.lstrip(…)`, for the characters that the test accepts
unfoldable pub strip_left : (Char → Bool) → String → String
strip_left p [] = []
strip_left p (c ∷ s) = if p c then strip_left p s else c ∷ s

-- `s.rstrip(…)`
unfoldable pub strip_right : (Char → Bool) → String → String
strip_right p [] = []
strip_right p (c ∷ s) = elim (strip_right p s) [
  | [] ↦ if p c then [] else c ∷ []
  | d ∷ r ↦ c ∷ d ∷ r
]

-- `s.strip(…)`
abbrev pub strip : (Char → Bool) → String → String
strip p s = strip_right p (strip_left p s)

abbrev pub is_slash : Char → Bool
is_slash c = nat_eq (code c) b'/'

-- The white space of `str.isspace`, which is also that of `\s`.
abbrev pub is_space : Char → Bool
is_space ch =
    let c = code ch in
    leb 0x9 c && leb c 0xd
    || leb 0x1c c && leb c 0x20
    || nat_eq c 0x85
    || nat_eq c 0xa0
    || nat_eq c 0x1680
    || leb 0x2000 c && leb c 0x200a
    || leb 0x2028 c && leb c 0x2029
    || nat_eq c 0x202f
    || nat_eq c 0x205f
    || nat_eq c 0x3000

abbrev pub AllChars : (Char → Type 0) → String → Type 0
AllChars P [] = Unit
AllChars P (c ∷ s) = P c × AllChars P s

pub AllChars-append :
    (P : Char → Type 0) (s t : String) → AllChars P s → AllChars P t → AllChars P (s ++ t)
AllChars-append P [] t h k = rw nil-append k
AllChars-append P (c ∷ s) t (p, h) k = rw cons-append (p, AllChars-append P s t h k)

strip_left_of_none :
    (p : Char → Bool) (s : String) → AllChars (λ c. p c ≡ false) s → strip_left p s ≡ s
unfolding strip_left
strip_left_of_none p [] h = refl
strip_left_of_none p (c ∷ s) (e, h) = rw e

strip_right_of_none :
    (p : Char → Bool) (s : String) → AllChars (λ c. p c ≡ false) s → strip_right p s ≡ s
unfolding strip_right
strip_right_of_none p [] h = refl
strip_right_of_none p (c ∷ []) (e, h) = rw e
strip_right_of_none p (c ∷ d ∷ s) (e, h) = rw (strip_right_of_none p (d ∷ s) h)

-- Stripping leaves a text alone that holds none of the characters.
pub strip_of_none : (p : Char → Bool) (s : String) → AllChars (λ c. p c ≡ false) s → strip p s ≡ s
strip_of_none p s h = rw (strip_left_of_none p s h) (strip_right_of_none p s h)
