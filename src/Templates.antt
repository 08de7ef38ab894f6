-- ===== src/Templates.antt =====
-- templates.py: a new project in an empty directory. The files of the package are parameters.
pub mod Texts
pub mod Created
use k_dash.Base.{
  String, ◌<>◌, Bool, true, false, not, ◌&&◌, Option, none, some, List, [], ◌∷◌, ◌==◌,
  if◌then◌else◌, Result, ok, err, raise_if, raise_python, ◌>>=◌, ◌>>◌, Error, k_dash_error,
  contract, os_error,
}
use k_dash.Json.{Value}
use k_dash.External.{Bytes}
use k_dash.Project.Names.{validate_kernel_name}
use k_dash.Project.Tree.{
  Node, file, directory, link_to_file, other_link, special, Entries, nil, entry,
}
use k_dash.Project.Extract.{split_slash}
use k_dash.Builder.Tree.{set_node}
use k_dash.Templates.Texts.{cpp_source, cutedsl_source, args_schema, flake_text}

-- The files below template_data, the encoding of a text and the printer of JSON
pub record Resources : Type 0 where
  pub flake_lock : String
  pub cpp_build : String
  pub cutedsl_build : String
  pub cutedsl_flake : String
  pub cutedsl_flake_lock : String
  pub encode : String → Bytes
  -- json.dumps with indent=2
  pub dumps : Value → String

abbrev pub init_error : String → Error
init_error message = k_dash_error contract message "init"

-- `if license_value: …`
abbrev pub license_line : Option String → String
license_line none = ""
license_line (some text) = if text == "" then "" else "license = \"" <> (text <> "\"\n")

abbrev pub manifest_text : (name : String) → (license_value : Option String) → String
manifest_text name license =
    "format-version = 1\nname = \"" <> (name <> ("\"\nbuild-api = 1\n" <> license_line license))

-- `mapping[relative] = content`
abbrev pub put_file : (relative content : String) → List (String × String) → List (String × String)
put_file relative content [] = (relative, content) ∷ []
put_file relative content ((r, c) ∷ rest) =
    if r == relative then (relative, content) ∷ rest else (r, c) ∷ put_file relative content rest

module _ (res : Resources) where
  -- `_shared`
  abbrev pub shared_files :
      (name : String) → (license_value : Option String) → List (String × String)
  shared_files name license =
      ("k-dash.toml", manifest_text name license)
      ∷ ("README.md", "# " <> (name <> "\n\nA TVM-FFI CUDA kernel managed by k-dash.\n"))
      ∷ (".k-dash-ignore", ".git\nresult\n*.pyc\n__pycache__\n")
      ∷ (".gitignore", "result\n.direnv\n")
      ∷ ("args.schema.json", res.dumps args_schema <> "\n")
      ∷ ("flake.nix", flake_text)
      ∷ ("flake.lock", res.flake_lock)
      ∷ []

  abbrev pub template_files : (template : String) → List (String × String) → List (String × String)
  template_files template files =
      if template == "cpp"
      then put_file "src/kernel.cu" cpp_source (put_file "build.nix" res.cpp_build files)
      else put_file "src/kernel.py" cutedsl_source (
          put_file "flake.lock" res.cutedsl_flake_lock
            (put_file "flake.nix" res.cutedsl_flake (put_file "build.nix" res.cutedsl_build files)))

  -- Writing each file below the destination, with the directories above it
  unfoldable pub write_files : List (String × String) → Entries → Entries
  write_files [] es = es
  write_files ((relative, content) ∷ rest) es =
      write_files rest (set_node (split_slash relative) (file false (res.encode content)) es)

  -- What stands in the destination, which may not exist, before anything is written
  abbrev pub empty_destination : Option Node → Result Entries
  empty_destination none = ok nil
  empty_destination (some (directory nil)) = ok nil
  empty_destination (some (directory (entry name node es))) =
      err (init_error "destination is not empty")
  empty_destination (some _) = raise_python os_error

  unfoldable pub init_project :
      (name : Value)
      → (destination : Option Node) → (template : String) → (license_value : Option String)
      → Result Entries
  unfolding write_files
  init_project name destination template license = do
    valid ← validate_kernel_name name
    raise_if (not (template == "cpp") && not (template == "cutedsl"))
        (init_error "template must be cpp or cutedsl")
    start ← empty_destination destination
    ok (write_files (template_files template (shared_files valid license)) start)
