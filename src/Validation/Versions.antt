-- ===== src/Validation/Versions.antt =====
-- Symbol versions such as GLIBC_2.28, and their order.
use k_dash.Base.{
  ℕ, String, Char, code, Bool, true, false, ◌&&◌, ◌||◌, Option, none, some, List, [], ◌∷◌, nat_eq,
  ltb, keep, if◌then◌else◌,
}
use k_dash.Base.Text.{strip_prefix}
use k_dash.Base.Decimal.{take_digits, number}
use k_dash.Target.{◌>>?◌}

abbrev pub split_dot : Char → List String → List String
split_dot c [] = []
split_dot c (part ∷ parts) =
    if nat_eq (code c) b'.' then "" ∷ part ∷ parts else String.◌∷◌ c part ∷ parts

-- `split(".")`
abbrev pub split_dots : String → List String
split_dots String.[] = "" ∷ []
split_dots (String.◌∷◌ c s) = split_dot c (split_dots s)

-- Digits to the end of the text, at least one
abbrev pub whole_number : List ℕ × String → Option ℕ
whole_number ([], rest) = none
whole_number (d ∷ ds, String.[]) = some (number (d ∷ ds))
whole_number (d ∷ ds, String.◌∷◌ c rest) = none

abbrev pub whole_numbers : List String → Option (List ℕ)
whole_numbers [] = some []
whole_numbers (part ∷ parts) =
    whole_number (take_digits part) >>? λ n. whole_numbers parts >>? λ ns. some (n ∷ ns)

-- The text after the last underscore, if there is one
abbrev pub after_underscore : String → Option String
after_underscore String.[] = none
after_underscore (String.◌∷◌ c s) = elim (after_underscore s) [
  | some rest ↦ some rest
  | none ↦ if nat_eq (code c) b'_' then some s else none
]

-- `value.rsplit("_", 1)[-1]`
abbrev pub last_part : String → String
last_part value = elim (after_underscore value) [ none ↦ value | some rest ↦ rest ]

-- `_version_tuple`, of a value whose parts are digits; there is no number in the others
unfoldable pub version_tuple : String → List ℕ
version_tuple value = elim (whole_numbers (split_dots (last_part value))) [
  | none ↦ []
  | some ns ↦ ns
]

-- `re.fullmatch(re.escape(prefix) + r"\d+(?:\.\d+)*", value)`
unfoldable pub is_version : (prefix value : String) → Bool
is_version prefix value =
    elim (strip_prefix prefix value >>? λ rest. whole_numbers (split_dots rest)) [
      | none ↦ false
      | some ns ↦ true
    ]

-- `a < b` of tuples
unfoldable pub tuple_lt : List ℕ → List ℕ → Bool
tuple_lt [] [] = false
tuple_lt [] (y ∷ ys) = true
tuple_lt (x ∷ xs) [] = false
tuple_lt (x ∷ xs) (y ∷ ys) = ltb x y || (nat_eq x y && tuple_lt xs ys)

-- `max(…, key=_version_tuple)`: the first of the largest.
unfoldable pub max_version : String → List String → String
max_version best [] = best
max_version best (v ∷ vs) =
    max_version (if tuple_lt (version_tuple best) (version_tuple v) then v else best) vs

abbrev pub max_of : List String → Option String
max_of [] = none
max_of (v ∷ vs) = some (max_version v vs)

-- `_maximum_version`
unfoldable pub maximum_version : (values : List String) → (prefix : String) → Option String
unfolding is_version max_version
maximum_version values prefix = max_of (keep (is_version prefix) values)
