-- ===== src/Templates/Created.antt =====
-- What a new project holds.
use text.Mathlib.TextLemmas.{cons-append, append_assoc}
use k_dash.Base.{
  ℕ, ◌≡◌, refl, ◌∙◌, ap, sym, subst, String, ◌<>◌, Char, true, false, not, ◌&&◌, Option, none, some,
  [], ◌∷◌, ◌==◌, Bool-cases, inl, inr, ok, eq_iff, if-eq-ok, on_ok, on_pass, ok_injective,
  if◌then◌else◌,
}
use k_dash.Base.Decimal.{show}
use k_dash.Base.Text.{strip, strip_left, strip_right, is_space}
use k_dash.Json.{
  nil as no_items, cons, field, end, set_field, Value, str, int, obj, Fields, fields, null, bool,
  float, arr, other, get_field,
}
use k_dash.Json.Numbers.{pos}
use k_dash.External.{Bytes, Libraries, complete}
use k_dash.Canonical.{loads_no_duplicates}
use k_dash.Project.{Readers, required_root_files, has_files, text_of, load_project}
use k_dash.Project.Names.{validate_kernel_name, is_accepting, kernel_run, owner_start}
use k_dash.Project.Tree.{
  Node, file, link_to_file, other_link, special, directory, Entries, nil, entry, find_entry,
  content_of,
}
use k_dash.Templates.{
  Resources, manifest_text, shared_files, template_files, write_files, empty_destination,
  init_project,
}
use k_dash.Templates.Texts.{args_schema}

-- A TOML document of three lines: a number, a text and a number
abbrev pub three_lines : (a : ℕ) → (name : String) → (b : ℕ) → String
three_lines a name b =
    "format-version = "
    <> (show a <> ("\nname = \"" <> (name <> ("\"\nbuild-api = " <> (show b <> "\n")))))

-- What TOML says of it
abbrev pub manifest_fields : (a : ℕ) → (name : String) → (b : ℕ) → Fields
manifest_fields a name b =
    fields (("format-version", int (pos a)) ∷ ("name", str name) ∷ ("build-api", int (pos b)) ∷ [])

-- Text is decoded as it was encoded; tomllib reads numbers in decimals and a text between quotation marks,
-- if it is one that kernels have for a name; and the JSON that is printed of the template's schema is
-- scanned as it.
pub record IsReadable (lib : Libraries) (rd : Readers) (res : Resources) : Type 0 where
  pub decode-encode : (text : String) → rd.decode (res.encode text) ≡ some text
  pub toml-lines :
      (a b : ℕ) (name : String)
      → validate_kernel_name (str name) ≡ ok name
      → rd.toml (three_lines a name b) ≡ some (manifest_fields a name b)
  pub scan-dumps : lib.scan_json (res.encode (res.dumps args_schema <> "\n")) ≡ complete args_schema

-- One integer argument of three values, which is 256 where it is not given, and no other
abbrev pub block_size_schema : Fields
block_size_schema = field "$schema" (str "https://json-schema.org/draft/2020-12/schema") (
    field "type" (str "object") (
      field "properties"
        (obj (
          field "block_size"
            (obj (
              field "type" (str "integer") (
                field "enum"
                  (arr
                    (cons (int (pos 128)) (cons (int (pos 256)) (cons (int (pos 512)) no_items))))
                  (field "default" (int (pos 256)) end))))
            end))
        (field "additionalProperties" (bool false) end)))

manifest_text-three_lines : (name : String) → three_lines 1 name 1 ≡ manifest_text name none
unfolding k_dash.Base.Decimal.decimal_from
manifest_text-three_lines name =
    let rest = name <> "\"\nbuild-api = 1\n" in
    sym (append_assoc "format-version = " "1" ("\nname = \"" <> rest))
    ∙ sym (append_assoc "format-version = 1" "\nname = \"" rest)

schema_loads :
    (lib : Libraries) (content : Bytes)
    → lib.scan_json content ≡ complete args_schema
    → loads_no_duplicates lib "project" content ≡ ok (obj block_size_schema)
unfolding loads_no_duplicates get_field set_field
schema_loads lib content h = rw h refl

-- The files of a template, written into an empty directory
abbrev pub project_of : Resources → (template name : String) → Entries
project_of res template name =
    write_files res (template_files res template (shared_files res name none)) nil

module _ (res : Resources) where
  project_of-has_files :
      (template name : String) → has_files required_root_files (project_of res template name) ≡ true
  unfolding write_files
  project_of-has_files template name = elim (Bool-cases (template == "cpp")) [
    | inl t ↦ rw t refl
    | inr f ↦ rw f refl
  ]

  content_is :
      (template name : String)
      → (content_of (find_entry "k-dash.toml" (project_of res template name))
          ≡ res.encode (manifest_text name none))
        × (content_of (find_entry "README.md" (project_of res template name))
            ≡ res.encode ("# " <> (name <> "\n\nA TVM-FFI CUDA kernel managed by k-dash.\n")))
        × (content_of (find_entry "args.schema.json" (project_of res template name))
            ≡ res.encode (res.dumps args_schema <> "\n"))
  unfolding write_files
  content_is template name = elim (Bool-cases (template == "cpp")) [
    | inl t ↦ rw t (refl, refl, refl)
    | inr f ↦ rw f (refl, refl, refl)
  ]

-- Only a text is a name.
named :
    (name : Value) {n : String}
    → validate_kernel_name name ≡ ok n
    → (name ≡ str n) × (validate_kernel_name (str n) ≡ ok n)
unfolding validate_kernel_name
named (str s) {n} h =
    let (t, e) = if-eq-ok (is_accepting (kernel_run owner_start s)) s _ h in
    (ap str (sym e), subst (λ x. validate_kernel_name (str x) ≡ ok n) (sym e) h)
named null h = cc
named (bool b) h = cc
named (int i) h = cc
named (float f) h = cc
named (arr vs) h = cc
named (obj fs) h = cc
named other h = cc

started :
    (res : Resources) (destination : Option Node) {start : Entries}
    → empty_destination res destination ≡ ok start
    → start ≡ nil
started res none h = sym (ok_injective h)
started res (some (directory nil)) h = sym (ok_injective h)
started res (some (directory (entry n d es))) h = cc
started res (some (file x c)) h = cc
started res (some (link_to_file c)) h = cc
started res (some other_link) h = cc
started res (some special) h = cc

eq-false : (x y : String) → (x ≡ y → ⊥) → (x == y) ≡ false
eq-false x y h = elim (Bool-cases (x == y)) [ inl t ↦ absurd (h ((eq_iff x y).0 t)) | inr f ↦ f ]

-- A text that starts with a visible character is not blank.
strip_right-visible :
    (c : Char) (s : String) → is_space c ≡ false → strip_right is_space (String.◌∷◌ c s) ≡ "" → ⊥
unfolding strip_right
strip_right-visible c s h = go (strip_right is_space s)
  where
    go :
        (r : String)
        → (elim r as (λ _. String) [
          | String.[] ↦ if is_space c then "" else String.◌∷◌ c ""
          | String.◌∷◌ d t ↦ String.◌∷◌ c (String.◌∷◌ d t)
        ])
          ≡ ""
        → ⊥
    go String.[] e = cc (subst (λ b. (if b then "" else String.◌∷◌ c "") ≡ "") h e)
    go (String.◌∷◌ d t) e = cc

strip-visible :
    (c : Char) (s : String) → is_space c ≡ false → (strip is_space (String.◌∷◌ c s) == "") ≡ false
unfolding strip_left
strip-visible c s h =
    eq-false (strip is_space (String.◌∷◌ c s)) "" (rw h (strip_right-visible c s h))

heading : (t : String) → (strip is_space ("# " <> t) == "") ≡ false
heading t = rw (cons-append "#" " " t) (strip-visible "#" (" " <> t) refl)

-- A project that has the files, and whose manifest says what a new one says.
load_project-eq :
    (lib : Libraries) (rd : Readers) (root : Entries) (name : String) (schema : Fields)
    (readme manifest : String)
    → validate_kernel_name (str name) ≡ ok name
    → has_files required_root_files root ≡ true
    → text_of lib rd "README.md" root ≡ some readme
    → (strip is_space readme == "") ≡ false
    → text_of lib rd "k-dash.toml" root ≡ some manifest
    → rd.toml manifest ≡ some (manifest_fields 1 name 1)
    → loads_no_duplicates lib "project" (content_of (find_entry "args.schema.json" root))
      ≡ ok (obj schema)
    → load_project lib rd root
      ≡ ok (record { name = name; format_version = 1; build_api = 1; license = none }, schema)
unfolding load_project get_field
load_project-eq lib rd root name schema readme manifest n f r b m t j =
    rw (f, r, b, m, t, n, j) refl

-- A project that `init_project` makes of a template, without a license, is a valid project: its directory
-- was absent or empty, and `load_project` accepts what is written, as a kernel of the name that was given
-- with format version 1 and build API 1, whose schema has one argument, block_size, of 128, 256 (the
-- default) or 512; if text is decoded as it was encoded, tomllib reads three lines of a number, such a name
-- and a number as TOML says, and the JSON scanner reads the schema back that json.dumps has printed.
pub init_project-load_project :
    (lib : Libraries) (rd : Readers) (res : Resources) (name : Value) (destination : Option Node)
    (template : String) (root : Entries)
    → IsReadable lib rd res
    → init_project res name destination template none ≡ ok root
    → (n : String) × (name ≡ str n)
      × (empty_destination res destination ≡ ok nil)
      × (load_project lib rd root
          ≡ ok (
            record { name = n; format_version = 1; build_api = 1; license = none },
            block_size_schema,
          ))
unfolding init_project
init_project-load_project lib rd res name destination template root readable h =
    on_ok (validate_kernel_name name) _ h λ n e1 h1.
      on_pass (not (template == "cpp") && not (template == "cutedsl")) _ _ h1 λ _ h2.
        on_ok (empty_destination res destination) _ h2 λ start e3 h3.
          let is_new : start ≡ nil = started res destination e3 in
          let made : project_of res template n ≡ root =
            ap (λ es. write_files res (template_files res template (shared_files res n none)) es)
              (sym is_new)
            ∙ ok_injective h3 in
          let (same, valid) = named name e1 in
          let (toml_is, readme_is, schema_is) = content_is res template n in
          let readme : String = "# " <> (n <> "\n\nA TVM-FFI CUDA kernel managed by k-dash.\n") in
          (
            n,
            same,
            e3 ∙ ap ok is_new,
            subst
                (λ es.
                  load_project lib rd es
                  ≡ ok (
                    record { name = n; format_version = 1; build_api = 1; license = none },
                    block_size_schema,
                  ))
                made
                (load_project-eq lib rd (project_of res template n) n block_size_schema readme
                  (manifest_text n none) valid (project_of-has_files res template n)
                  (ap rd.decode readme_is ∙ readable.decode-encode readme)
                  (heading (n <> "\n\nA TVM-FFI CUDA kernel managed by k-dash.\n"))
                  (ap rd.decode toml_is ∙ readable.decode-encode (manifest_text n none))
                  (ap rd.toml (sym (manifest_text-three_lines n)) ∙ readable.toml-lines 1 1 n valid)
                  (ap (loads_no_duplicates lib "project") schema_is
                    ∙ schema_loads lib (res.encode (res.dumps args_schema <> "\n"))
                        readable.scan-dumps)),
          )
