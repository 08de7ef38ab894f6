-- ===== src/Builder.antt =====
-- builder.py: kernel.so out of a project, by Nix on this machine or inside a Docker container.
-- The Nix command and the Docker daemon are parameters.
pub mod Driver
pub mod Tree
pub mod Docker
pub mod Output
use k_dash.Base.{
  ℕ, zero, suc, ◌/◌, ◌%◌, ◌≡◌, String, ◌<>◌, Bool, true, false, not, ◌&&◌, ◌||◌, Option, none, some,
  List, [], ◌∷◌, ◌++◌, ◌==◌, nat_eq, if◌then◌else◌, Result, ok, err, raise_if, raise_python, ◌>>=◌,
  ◌>>◌, Error, k_dash_error, python_error, operational, contract, index_error, key_error,
  type_error, value_error,
}
use k_dash.Base.Text.{strip, is_space}
use k_dash.Json.{Value, str, obj, arr, fields, get_field}
use k_dash.External.{Bytes, Libraries}
use k_dash.Model.{BuildSpec, spec_dict}
use k_dash.Canonical.{canonical_json}
use k_dash.Project.{Readers, or_raise}
use k_dash.Project.Tree.{
  Node, file, directory, Entries, nil, entry, find_entry, is_file_node, content_of,
}
use k_dash.Project.Extract.{Written, relative_parts}
use k_dash.Builder.Driver.{driver_expression}

-- DEFAULT_BUILDER_IMAGE
abbrev pub default_builder_image : String
default_builder_image = "nixos/nix:2.24.9"

-- A command that Nix runs: its arguments with the driver behind `--file`, the tree that the driver reads,
-- the environment and the time in seconds.
pub record NixCommand : Type 0 where
  pub arguments : List String
  pub driver : String
  pub source : Entries
  pub environment : List (String × String)
  pub timeout : ℕ

pub record Nix : Type 0 where
  -- shutil.which("nix") is not None
  pub installed : Bool
  -- subprocess.run: the output, `none` where it raises CalledProcessError or TimeoutExpired
  pub run : NixCommand → Option String
  -- what stands in a directory
  pub directory_at : String → Entries
  -- the temporary directory, and the absolute path of the source
  pub temporary : String
  pub source_path : String
  -- PATH, HOME and K_DASH_NIX_MAX_JOBS, with their defaults
  pub search_path : String
  pub home : String
  pub max_jobs : String
  -- int() of K_DASH_JIT_TIMEOUT and of K_DASH_AOT_TIMEOUT, `none` where it raises
  pub jit_timeout : Option ℕ
  pub aot_timeout : Option ℕ
  -- K_DASH_OFFLINE is 1
  pub offline : Bool
  -- json.dumps of a text
  pub dumps : String → String

-- `value[key]` of a dict, which a key of another type than text cannot index here
abbrev pub item_of : String → Value → Result Value
item_of key (obj fs) = elim (get_field key fs) [ none ↦ raise_python key_error | some v ↦ ok v ]
item_of key _ = raise_python type_error

-- The systems that Nix has for an architecture
abbrev pub system_of : Value → Result String
system_of (str a) =
    if a == "x86_64"
    then ok "x86_64-linux"
    else if a == "aarch64"
    then ok "aarch64-linux"
    else raise_python key_error
system_of (arr vs) = raise_python type_error
system_of (obj fs) = raise_python type_error
system_of _ = raise_python key_error

-- `_nix_system`
unfoldable pub nix_system : BuildSpec → Result String
nix_system spec = item_of "arch" spec.target >>= system_of

abbrev pub last_of : List String → Result String
last_of [] = raise_python index_error
last_of (line ∷ []) = ok line
last_of (line ∷ next ∷ lines) = last_of (next ∷ lines)

abbrev pub last_name : List String → String
last_name [] = ""
last_name (part ∷ []) = part
last_name (part ∷ next ∷ rest) = last_name (next ∷ rest)

-- `Path(path).name`
abbrev pub base_name : String → String
base_name path = last_name (relative_parts path)

-- `any(path.name != "kernel.so" for path in output.iterdir())`
abbrev pub has_others : Entries → Bool
has_others nil = false
has_others (entry name node es) = not (name == "kernel.so") || has_others es

-- The directory that a build left: kernel.so and nothing else
unfoldable pub only_kernel : (stage : String) → Entries → Result Bytes
only_kernel stage es =
    if not (is_file_node (find_entry "kernel.so" es)) || has_others es
    then err (k_dash_error contract "build output must contain only kernel.so" stage)
    else ok (content_of (find_entry "kernel.so" es))

abbrev pub provenance : (mode nix_output : String) → Value
provenance mode output = obj (fields (("mode", str mode) ∷ ("nix_output", str output) ∷ []))

module _ (lib : Libraries) (rd : Readers) (nix : Nix) where
  -- The driver for a source at a path
  unfoldable pub driver_of : (path : String) → BuildSpec → Result String
  unfolding nix_system
  driver_of path spec = do
    system ← nix_system spec
    content ← canonical_json lib (spec_dict spec)
    text ← or_raise (rd.decode content) (python_error value_error)
    ok (driver_expression (nix.dumps path) (nix.dumps system) (nix.dumps text))

  -- What is read of the command's output
  unfoldable pub read_output : (stage : String) → String → Result (Bytes × Value)
  unfolding only_kernel
  read_output stage stdout = do
    path ← last_of (rd.splitlines (strip is_space stdout))
    kernel_so ← only_kernel stage (nix.directory_at path)
    ok (kernel_so, provenance stage (base_name path))

  abbrev pub jit_arguments : List String
  jit_arguments =
      "nix"
      ∷ "build"
      ∷ ((if nix.offline then "--offline" ∷ [] else [])
          ++ ("--no-link"
              ∷ "--print-out-paths"
              ∷ "--max-jobs"
              ∷ nix.max_jobs
              ∷ "--file"
              ∷ (nix.temporary <> "/driver.nix")
              ∷ []))

  unfoldable pub local_jit : Entries → BuildSpec → Result (Bytes × Value)
  unfolding driver_of read_output
  local_jit source spec = do
    raise_if (not nix.installed)
        (k_dash_error operational "Nix is unavailable after Binary Miss" "local-jit")
    driver ← driver_of nix.source_path spec
    timeout ← or_raise nix.jit_timeout (python_error value_error)
    stdout ←
        or_raise
          (nix.run (record {
            arguments = jit_arguments;
            driver = driver;
            source = source;
            environment =
                ("PATH", nix.search_path)
                ∷ ("HOME", nix.home)
                ∷ (
                  "NIX_CONFIG",
                  "experimental-features = nix-command flakes\nsandbox = true\npure-eval = true",
                )
                ∷ [];
            timeout = timeout;
          }))
          (k_dash_error operational "Nix Local JIT failed" "local-jit")
    read_output "local-jit" stdout

  unfoldable pub nix_aot : Entries → BuildSpec → Result (Bytes × Value)
  unfolding driver_of read_output
  nix_aot source spec = do
    raise_if (not nix.installed) (k_dash_error operational "Nix is unavailable" "nix-aot")
    driver ← driver_of nix.source_path spec
    timeout ← or_raise nix.aot_timeout (python_error value_error)
    stdout ←
        or_raise
          (nix.run (record {
            arguments =
                "nix"
                ∷ "build"
                ∷ "--no-link"
                ∷ "--print-out-paths"
                ∷ "--max-jobs"
                ∷ nix.max_jobs
                ∷ "--file"
                ∷ (nix.temporary <> "/driver.nix")
                ∷ [];
            driver = driver;
            source = source;
            environment =
                ("PATH", nix.search_path)
                ∷ ("HOME", nix.temporary)
                ∷ (
                  "NIX_CONFIG",
                  "experimental-features = nix-command flakes\nsandbox = false\npure-eval = true\nbuild-users-group =\nfilter-syscalls = false",
                )
                ∷ [];
            timeout = timeout;
          }))
          (k_dash_error operational "Nix AOT failed" "nix-aot")
    read_output "nix-aot" stdout
