-- ===== src/Tests/Creating.antt =====
-- A project that is made in an empty directory.
use Prim.Native.Nat.{Ordering, compare}
use Prim.Native.Char.{char, IsScalar, IsLt}
use text.Mathlib.TextEquality.{IsScalar-prop}
use text.Mathlib.TextLemmas.{nil-append, cons-append}
use k_dash.Base.{
  ℕ, ◌≡◌, refl, ap, String, Char, code, ◌<>◌, true, false, Option, none, some, [], ◌∷◌, nat_eq,
  if◌then◌else◌, if-eq-ok, ok, Bool-cases, inl, inr, arith, ◌∙◌,
}
use k_dash.Base.Text.{strip_prefix, strip_prefix-append}
use k_dash.Json.{str, Fields}
use k_dash.External.{Bytes, Libraries, complete}
use k_dash.Project.{Readers}
use k_dash.Project.Names.{
  KernelState, owner_start, owner_word, owner_mark, kernel_start, kernel_word, kernel_mark, failed,
  kernel_step, kernel_run, is_accepting, validate_kernel_name,
}
use k_dash.Project.Tree.{directory, nil}
use k_dash.Templates.{Resources, empty_destination, init_project}
use k_dash.Templates.Created.{
  IsReadable, manifest_fields, three_lines, block_size_schema, project_of,
  init_project-load_project,
}
use k_dash.Project.{load_project}
use k_dash.Tests.Publishing.{publish_libraries}
use k_dash.Templates.Texts.{args_schema}
use k_dash.Base.Decimal.{number, take_digits, show}
use k_dash.Base.Decimal.Laws.{NoDigitFirst, take_digits-show, number-decimal}

-- A text is written as the numbers of its characters.
abbrev pub encode : String → Bytes
encode String.[] = []
encode (String.◌∷◌ c s) = code c ∷ encode s

abbrev Below : Ordering → Ordering → Type 0
Below Ordering.lt o = IsLt o
Below Ordering.eq o = ⊥
Below Ordering.gt o = ⊥

abbrev Scalar : Ordering → Ordering → Ordering → Type 0
Scalar Ordering.lt p q = Unit {0}
Scalar Ordering.eq p q = Below p q
Scalar Ordering.gt p q = Below p q

abbrev dec_lt_order : (o : Ordering) → Dec (IsLt o)
dec_lt_order Ordering.lt = yes tt
dec_lt_order Ordering.eq = no (λ x. x)
dec_lt_order Ordering.gt = no (λ x. x)

abbrev dec_below : (p q : Ordering) → Dec (Below p q)
dec_below Ordering.lt q = dec_lt_order q
dec_below Ordering.eq q = no (λ x. x)
dec_below Ordering.gt q = no (λ x. x)

abbrev dec_scalar : (o p q : Ordering) → Dec (Scalar o p q)
dec_scalar Ordering.lt p q = yes tt
dec_scalar Ordering.eq p q = dec_below p q
dec_scalar Ordering.gt p q = dec_below p q

abbrev is_scalar : (n : ℕ) → Dec (IsScalar n)
is_scalar n = dec_scalar (compare n 55296) (compare 57343 n) (compare n 1114112)

abbrev cons_char : (n : ℕ) → Dec (IsScalar n) → Option String → Option String
cons_char n (yes p) (some s) = some (String.◌∷◌ (char n p) s)
cons_char n (yes p) none = none
cons_char n (no q) rest = none

abbrev pub decode : Bytes → Option String
decode [] = some ""
decode (n ∷ ns) = cons_char n (is_scalar n) (decode ns)

cons_char-code :
    (n : ℕ) (p : IsScalar n) (s : String) (d : Dec (IsScalar n))
    → cons_char n d (some s) ≡ some (String.◌∷◌ (char n p) s)
cons_char-code n p s (yes q) = ap (λ r. some (String.◌∷◌ (char n r) s)) (IsScalar-prop n q p)
cons_char-code n p s (no q) = absurd (q p)

pub decode-encode : (s : String) → decode (encode s) ≡ some s
decode-encode String.[] = refl
decode-encode (String.◌∷◌ (char n p) s) = rw (decode-encode s) (cons_char-code n p s (is_scalar n))

abbrev until_quote : String → String
until_quote String.[] = ""
until_quote (String.◌∷◌ c s) =
    let rest = until_quote s in if nat_eq (code c) b'"' then "" else String.◌∷◌ c rest

abbrev past_quote : String → String
past_quote String.[] = ""
past_quote (String.◌∷◌ c s) = let rest = past_quote s in if nat_eq (code c) b'"' then s else rest

abbrev pub resources : Resources
resources = record {
  flake_lock = "{}";
  cpp_build = "{ }: { }";
  cutedsl_build = "{ }: { }";
  cutedsl_flake = "{ }";
  cutedsl_flake_lock = "{}";
  encode = encode;
  dumps = λ value. "{}";
}

abbrev third_line : ℕ → String → Option String → Option Fields
third_line a name none = none
third_line a name (some s) = some (manifest_fields a name (number (take_digits s).0))

abbrev second_line : ℕ → Option String → Option Fields
second_line a none = none
second_line a (some s) = third_line a (until_quote s) (strip_prefix "\nbuild-api = " (past_quote s))

abbrev first_line : Option String → Option Fields
first_line none = none
first_line (some s) =
    second_line (number (take_digits s).0) (strip_prefix "\nname = \"" (take_digits s).1)

-- Three lines of a number, a name and a number
abbrev lines_readers : Readers
lines_readers = record {
  decode = decode;
  toml = λ text. first_line (strip_prefix "format-version = " text);
  splitlines = λ text. [];
}

-- Every JSON text is the schema of a new project.
abbrev schema_libraries : Libraries
schema_libraries = record publish_libraries { scan_json = λ content. complete args_schema }

failed_run : (s : String) → kernel_run failed s ≡ failed
unfolding kernel_run
failed_run String.[] = refl
failed_run (String.◌∷◌ c s) = failed_run s

quote_step : (q : KernelState) (c : Char) → code c ≡ b'"' → kernel_step q c ≡ failed
quote_step owner_start c h = rw h refl
quote_step owner_word c h = rw h refl
quote_step owner_mark c h = rw h refl
quote_step kernel_start c h = rw h refl
quote_step kernel_word c h = rw h refl
quote_step kernel_mark c h = rw h refl
quote_step failed c h = refl

until_quote-append :
    (s rest : String) (q : KernelState)
    → is_accepting (kernel_run q s) ≡ true
    → until_quote (s <> String.◌∷◌ "\"" rest) ≡ s
unfolding kernel_run
until_quote-append String.[] rest q h = rw (nil-append (String.◌∷◌ "\"" rest)) refl
until_quote-append (String.◌∷◌ c s) rest q h = elim (Bool-cases (nat_eq (code c) b'"')) [
  | inl t ↦
      let e : code c ≡ b'"' = ground arith in
      let step : kernel_run (kernel_step q c) s ≡ failed =
        ap (λ x. kernel_run x s) (quote_step q c e) ∙ failed_run s in
      (let no_name : is_accepting (kernel_run (kernel_step q c) s) ≡ false = ap is_accepting step in
        cc)
  | inr f ↦
      rw (cons-append c s (String.◌∷◌ "\"" rest), f, until_quote-append s rest (kernel_step q c) h)
        refl
]

past_quote-append :
    (s rest : String) (q : KernelState)
    → is_accepting (kernel_run q s) ≡ true
    → past_quote (s <> String.◌∷◌ "\"" rest) ≡ rest
unfolding kernel_run
past_quote-append String.[] rest q h = rw (nil-append (String.◌∷◌ "\"" rest)) refl
past_quote-append (String.◌∷◌ c s) rest q h = elim (Bool-cases (nat_eq (code c) b'"')) [
  | inl t ↦
      let e : code c ≡ b'"' = ground arith in
      let step : kernel_run (kernel_step q c) s ≡ failed =
        ap (λ x. kernel_run x s) (quote_step q c e) ∙ failed_run s in
      (let no_name : is_accepting (kernel_run (kernel_step q c) s) ≡ false = ap is_accepting step in
        cc)
  | inr f ↦
      rw (cons-append c s (String.◌∷◌ "\"" rest), f, past_quote-append s rest (kernel_step q c) h)
        refl
]

third_read :
    (a b : ℕ) (name : String)
    → third_line a name (strip_prefix "\nbuild-api = " ("\nbuild-api = " <> (show b <> "\n")))
      ≡ some (manifest_fields a name b)
unfolding k_dash.Base.Decimal.digit_value
third_read a b name =
    rw
      (
        strip_prefix-append "\nbuild-api = " (show b <> "\n"),
        take_digits-show b "\n" refl,
        number-decimal b,
      )
      refl

second_read :
    (a b : ℕ) (name : String)
    → is_accepting (kernel_run owner_start name) ≡ true
    → second_line a (some (name <> ("\"\nbuild-api = " <> (show b <> "\n"))))
      ≡ some (manifest_fields a name b)
second_read a b name t =
    let rest = "\nbuild-api = " <> (show b <> "\n") in
    let quoted : "\"\nbuild-api = " <> (show b <> "\n") ≡ String.◌∷◌ "\"" rest =
      cons-append "\"" "\nbuild-api = " (show b <> "\n") in
    rw
      (
        quoted,
        until_quote-append name rest owner_start t,
        past_quote-append name rest owner_start t,
      )
      (third_read a b name)

ends_digits : (rest : String) → NoDigitFirst ("\nname = \"" <> rest)
unfolding k_dash.Base.Decimal.digit_value
ends_digits rest = rw (cons-append "\n" "name = \"" rest) refl

lines_read :
    (a b : ℕ) (name : String)
    → validate_kernel_name (str name) ≡ ok name
    → lines_readers.toml (three_lines a name b) ≡ some (manifest_fields a name b)
unfolding validate_kernel_name
lines_read a b name h =
    let (t, e) = if-eq-ok (is_accepting (kernel_run owner_start name)) name _ h in
    let rest = name <> ("\"\nbuild-api = " <> (show b <> "\n")) in
    rw
      (
        strip_prefix-append "format-version = " (show a <> ("\nname = \"" <> rest)),
        take_digits-show a ("\nname = \"" <> rest) (ends_digits rest),
        number-decimal a,
        strip_prefix-append "\nname = \"" rest,
      )
      (second_read a b name t)

readable : IsReadable schema_libraries lines_readers resources
readable = record { decode-encode = decode-encode; toml-lines = lines_read; scan-dumps = refl }

made :
    init_project resources (str "owner/axpy") (some (directory nil)) "cpp" none
    ≡ ok (project_of resources "cpp" "owner/axpy")
unfolding init_project validate_kernel_name
made = refl

init_project-load_project_example :
    (n : String) × (str "owner/axpy" ≡ str n)
    × (empty_destination resources (some (directory nil)) ≡ ok nil)
    × (load_project schema_libraries lines_readers (project_of resources "cpp" "owner/axpy")
        ≡ ok (
          record { name = n; format_version = 1; build_api = 1; license = none },
          block_size_schema,
        ))
init_project-load_project_example =
    init_project-load_project schema_libraries lines_readers resources (str "owner/axpy")
      (some (directory nil)) "cpp" (project_of resources "cpp" "owner/axpy") readable made
