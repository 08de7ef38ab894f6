-- ===== src/Project.antt =====
-- project.py: the contract of a kernel project, and its source archive. tomllib, fnmatch, tarfile and
-- zstandard are parameters.
pub mod Names
pub mod Tree
pub mod Extract
pub mod Safety
use k_dash.Base.{
  ℕ, zero, suc, ◌≡◌, String, ◌<>◌, Bool, true, false, not, ◌&&◌, ◌||◌, Option, none, some, List, [],
  ◌∷◌, ◌++◌, ◌==◌, nat_eq, contains, if◌then◌else◌, Result, ok, err, raise, raise_if, raise_python,
  ◌>>=◌, ◌>>◌, Error, k_dash_error, contract, value_error, length,
}
use k_dash.Base.Text.{
  strip, strip_left, strip_right, starts_with, remove_prefix, is_slash, is_space,
}
use k_dash.Json.{
  Value, null, bool, int, str, arr, obj, Fields, end, fields, items, get_field, get_or_null,
}
use k_dash.Json.Numbers.{pos}
use k_dash.External.{Bytes, Libraries}
use k_dash.Model.{ProjectManifest}
use k_dash.Canonical.{canonical_json, digest_bytes, loads_no_duplicates}
use k_dash.Config.{only_keys, equals_one}
use k_dash.Artifact.{Codec, Member, size_of, manifest_value, release_type, BuildObjects}
use k_dash.Project.Names.{validate_kernel_name}
use k_dash.Project.Tree.{
  Node, Entries, find_entry, is_file_node, content_of, SourceFile, walk, Fnmatch, sort_files,
}

-- REQUIRED_ROOT_FILES
abbrev pub required_root_files : List String
required_root_files =
    "k-dash.toml" ∷ "README.md" ∷ "build.nix" ∷ "flake.nix" ∷ "flake.lock" ∷ "args.schema.json"
    ∷ ".k-dash-ignore" ∷ []

abbrev pub project_error : String → Error
project_error message = k_dash_error contract message "project"

-- Decoding and TOML.
pub record Readers : Type 0 where
  -- `read_text()`, `none` where it raises a UnicodeDecodeError
  pub decode : Bytes → Option String
  -- `tomllib.loads`, `none` where it raises
  pub toml : String → Option Fields
  -- `str.splitlines()`
  pub splitlines : String → List String

abbrev pub has_files : List String → Entries → Bool
has_files [] root = true
has_files (name ∷ names) root = is_file_node (find_entry name root) && has_files names root

-- `isinstance(license, str)`, or None
abbrev pub license_of : Value → Result (Option String)
license_of null = ok none
license_of (str s) = ok (some s)
license_of _ = err (project_error "license must be a string")

-- Whatever is raised becomes this error.
abbrev pub or_error {ℓ} : {A : Type ℓ} → Result A → Error → Result A
or_error (ok a) e = ok a
or_error (err _) e = err e

abbrev pub or_raise {ℓ} : {A : Type ℓ} → Option A → Error → Result A
or_raise none e = err e
or_raise (some a) e = ok a

abbrev pub schema_fields : Value → Result Fields
schema_fields (obj fs) = ok fs
schema_fields _ = err (project_error "args.schema.json must be an object")

module _ (lib : Libraries) (rd : Readers) where
  -- The text of a file that is there.
  abbrev pub text_of : String → Entries → Option String
  text_of name root = rd.decode (content_of (find_entry name root))

  abbrev pub is_blank : Option String → Result Bool
  is_blank none = raise_python value_error
  is_blank (some t) = ok (strip is_space t == "")

  abbrev pub toml_of : Option String → Option Fields
  toml_of none = none
  toml_of (some t) = rd.toml t

  unfoldable pub load_project : Entries → Result (ProjectManifest × Fields)
  load_project root = do
    raise_if (not (has_files required_root_files root))
        (project_error "required project files are missing")
    blank ← is_blank (text_of "README.md" root)
    raise_if blank (project_error "README.md must not be empty")
    raw ← or_raise (toml_of (text_of "k-dash.toml" root)) (project_error "invalid k-dash.toml")
    raise_if (not (only_keys ("format-version" ∷ "name" ∷ "build-api" ∷ "license" ∷ []) raw))
        (project_error "unknown manifest fields")
    raise_if
        (not (equals_one (get_or_null "format-version" raw))
          || not (equals_one (get_or_null "build-api" raw)))
        (project_error "unsupported project protocol version")
    name ← validate_kernel_name (get_or_null "name" raw)
    license ← license_of (get_or_null "license" raw)
    loaded ←
        or_error
          (loads_no_duplicates lib "project" (content_of (find_entry "args.schema.json" root)))
          (project_error "invalid args.schema.json")
    schema ← schema_fields loaded
    ok (record { name = name; format_version = 1; build_api = 1; license = license }, schema)

  -- The lines of .k-dash-ignore that are patterns
  abbrev pub patterns_of : List String → List String
  patterns_of [] = []
  patterns_of (line ∷ lines) =
      let text = strip is_space line in
      let rest = patterns_of lines in
      if text == "" || starts_with text "#" then rest else remove_prefix text "/" ∷ rest

  abbrev pub fixed_patterns : List String
  fixed_patterns = ".git" ∷ ".git/**" ∷ "__pycache__" ∷ "**/__pycache__" ∷ "*.pyc" ∷ []

  module _ (fnmatch : Fnmatch) where
    abbrev pub any_match : String → List String → Bool
    any_match name [] = false
    any_match name (p ∷ ps) = fnmatch name p || any_match name ps

    abbrev pub excludes_required : List String → List String → Bool
    excludes_required patterns [] = false
    excludes_required patterns (r ∷ rs) = any_match r patterns || excludes_required patterns rs

    abbrev pub lines_of : Option String → Result (List String)
    lines_of none = raise_python value_error
    lines_of (some t) = ok (rd.splitlines t)

    unfoldable pub ignore_patterns : Entries → Result (List String)
    ignore_patterns root = do
      lines ← lines_of (text_of ".k-dash-ignore" root)
      let patterns = fixed_patterns ++ patterns_of lines
      raise_if (excludes_required patterns required_root_files)
          (project_error "a required root file is excluded by .k-dash-ignore")
      ok patterns

    unfoldable pub source_files : Entries → Result (List SourceFile)
    unfolding load_project ignore_patterns
    source_files root = do
      load_project root >>= λ _.
          ignore_patterns root >>= λ patterns. ok (sort_files (walk fnmatch patterns "" root))
