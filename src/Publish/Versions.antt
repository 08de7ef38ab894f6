-- ===== src/Publish/Versions.antt =====
-- `validate_version` of publish.py: a version that makes a tag.
use text.Mathlib.TextLemmas.{length-append, length-cons, cons-append}
use k_dash.Base.{
  ◌+◌, ◌≤◌, ◌≡◌, refl, ap, subst, String, Char, code, ◌<>◌, count, Bool, true, false, not, ◌&&◌,
  ◌||◌, nat_eq, leb, ltb, arith, if◌then◌else◌, Result, ok, err, Error, k_dash_error, contract,
  on_else, ok_injective,
}
use k_dash.Base.Text.{AllChars, AllChars-append}
use k_dash.Json.{Value, str, null, bool, int, float, arr, obj, other}

-- `[A-Za-z0-9_]`
abbrev pub is_word_char : Char → Bool
is_word_char ch =
    let c = code ch in
    leb b'A' c && leb c b'Z'
    || leb b'a' c && leb c b'z'
    || leb b'0' c && leb c b'9'
    || nat_eq c b'_'

-- `[A-Za-z0-9_.-]`
abbrev pub is_tag_char : Char → Bool
is_tag_char c = is_word_char c || nat_eq (code c) b'.' || nat_eq (code c) b'-'

abbrev pub all_tag_chars : String → Bool
all_tag_chars String.[] = true
all_tag_chars (String.◌∷◌ c s) = is_tag_char c && all_tag_chars s

-- `VERSION_RE.fullmatch(version)`
abbrev pub matches_version : String → Bool
matches_version String.[] = false
matches_version (String.◌∷◌ c s) = is_word_char c && all_tag_chars s && leb (count s) 119

abbrev pub version_error : Error
version_error = k_dash_error contract "version cannot form a valid OCI tag" "publish"

unfoldable pub validate_version : Value → Result String
validate_version (str version) =
    if not (matches_version version) || ltb 128 (count ("release-" <> version))
    then err version_error
    else ok version
validate_version _ = err version_error

-- The first character is a word character, and the others belong to a tag.
abbrev pub IsTag : String → Type 0
IsTag String.[] = ⊥
IsTag (String.◌∷◌ c s) =
    (is_word_char c ≡ true) × AllChars (λ d. is_tag_char d ≡ true) s × (count s ≤ 127)

-- The versions that pass.
abbrev pub IsVersion : String → Type 0
IsVersion String.[] = ⊥
IsVersion (String.◌∷◌ c s) =
    (is_word_char c ≡ true) × AllChars (λ d. is_tag_char d ≡ true) s × (count s ≤ 119)

and_true : (a b : Bool) → (a && b) ≡ true → (a ≡ true) × (b ≡ true)
and_true true b h = (refl, h)
and_true false b h = cc

all_tag_chars-AllChars :
    (s : String) → all_tag_chars s ≡ true → AllChars (λ d. is_tag_char d ≡ true) s
all_tag_chars-AllChars String.[] h = tt
all_tag_chars-AllChars (String.◌∷◌ c s) h =
    let (p, q) = and_true (is_tag_char c) (all_tag_chars s) h in (p, all_tag_chars-AllChars s q)

neither : (a b : Bool) → (not a || b) ≡ false → a ≡ true
neither true b h = refl
neither false b h = cc

AllChars-all_tag_chars :
    (s : String) → AllChars (λ d. is_tag_char d ≡ true) s → all_tag_chars s ≡ true
AllChars-all_tag_chars String.[] h = refl
AllChars-all_tag_chars (String.◌∷◌ c s) (p, q) = rw (p, AllChars-all_tag_chars s q) refl

matches_version-IsVersion : (v : String) → matches_version v ≡ true → IsVersion v
matches_version-IsVersion String.[] h = cc
matches_version-IsVersion (String.◌∷◌ c s) h =
    let (most, short) = and_true (is_word_char c && all_tag_chars s) (leb (count s) 119) h in
    let (first, rest) = and_true (is_word_char c) (all_tag_chars s) most in
    (first, all_tag_chars-AllChars s rest, ground arith)

IsVersion-matches_version : (v : String) → IsVersion v → matches_version v ≡ true
IsVersion-matches_version String.[] h = absurd h
IsVersion-matches_version (String.◌∷◌ c s) (p, q, r) =
    let t : leb (count s) 119 ≡ true = ground arith in rw (p, AllChars-all_tag_chars s q, t) refl

IsVersion-count : (v : String) → IsVersion v → count v ≤ 120
IsVersion-count String.[] h = absurd h
IsVersion-count (String.◌∷◌ c s) (p, q, r) = omega (arith, length-cons c s)

IsVersion-AllChars : (v : String) → IsVersion v → AllChars (λ d. is_tag_char d ≡ true) v
IsVersion-AllChars String.[] h = absurd h
IsVersion-AllChars (String.◌∷◌ c s) (p, q, r) = (rw p refl, q)

count-release : (v : String) → count ("release-" <> v) ≡ 8 + count v
count-release v = length-append "release-" v

IsVersion-IsTag : (v : String) → IsVersion v → IsTag ("release-" <> v)
IsVersion-IsTag v h =
    let split : "release-" <> v ≡ String.◌∷◌ "r" ("elease-" <> v) = cons-append "r" "elease-" v in
    rw split (
      refl,
      AllChars-append _ "elease-" v (all_tag_chars-AllChars "elease-" refl)
          (IsVersion-AllChars v h),
      omega (arith, length-append "elease-" v, IsVersion-count v h),
    )

accepted :
    (value : Value) (v : String)
    → validate_version value ≡ ok v
    → (value ≡ str v) × (matches_version v ≡ true)
unfolding validate_version
accepted (str w) v h =
    on_else (not (matches_version w) || ltb 128 (count ("release-" <> w))) _ _ h λ t e.
      let same : w ≡ v = ok_injective e in
      (ap str same, subst (λ x. matches_version x ≡ true) same (neither (matches_version w) _ t))
accepted null v h = cc
accepted (bool b) v h = cc
accepted (int n) v h = cc
accepted (float x) v h = cc
accepted (arr vs) v h = cc
accepted (obj fs) v h = cc
accepted other v h = cc

-- The versions that pass are the texts of 1 to 120 letters, digits, `_`, `.` and `-` of ASCII whose first
-- is no `.` and no `-`; each of them is returned as it is and makes a tag of at most 128 characters, which
-- is what a registry accepts, so the second test of the function refuses nothing.
pub validate_version_iff :
    (value : Value) (v : String)
    → (validate_version value ≡ ok v → (value ≡ str v) × IsVersion v × IsTag ("release-" <> v))
      × (IsVersion v → validate_version (str v) ≡ ok v)
unfolding validate_version
validate_version_iff value v = (
  λ h.
      let (same, ok_version) = accepted value v h in
      let valid = matches_version-IsVersion v ok_version in (same, valid, IsVersion-IsTag v valid),
  λ valid.
      let short : ltb 128 (count ("release-" <> v)) ≡ false =
        ground (arith, count-release v, IsVersion-count v valid) in
      rw (IsVersion-matches_version v valid, short) refl,
)
