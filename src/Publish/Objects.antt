-- ===== src/Publish/Objects.antt =====
-- What the functions of publish.py share: the interfaces of the registries' clients and of the builders, the
-- files of arguments, and the objects of a build with their checks.
use k_dash.Base.{
  String, Bool, true, false, Option, none, some, List, [], ◌∷◌, ◌==◌, if◌then◌else◌, Result, ok,
  err, raise_python, ◌>>=◌ as ◌>>=ᴿ◌, Error, k_dash_error, python_error, contract,
  artifact_integrity, os_error, value_error,
}
use k_dash.Base.Exec.{Exec}
use k_dash.Json.{Value, arr}
use k_dash.External.{Bytes, Libraries}
use k_dash.Model.{BuildSpec, RegistryConfig}
use k_dash.Canonical.{loads_no_duplicates, normalize_args}
use k_dash.Artifact.{Codec, BuildObjects, build_objects}
use k_dash.Oci.{Client, Manifest}
use k_dash.Project.{Readers}
use k_dash.Project.Tree.{Entries}
use k_dash.Validation.{ReadElf, readable, cxx_runtime_requirement, validate_kernel_so}
use k_dash.Validation.Dependencies.{infer_host_dependencies}
use k_dash.Runtime.Materialize.{cxx_runtime_value}

-- What publishing asks of the registries: a client for a registry and a kernel, and its calls.
pub record Clients (W : Type 0) : Type 0 where
  pub open_client : RegistryConfig → (kernel : String) → Result Client
  pub get_manifest : Client → (reference : String) → Exec W Manifest
  pub push :
      Client
      → (reference : String) → (config : Bytes) → List Bytes
      → (manifest : Bytes) → Exec W String

-- What makes a kernel.so and its provenance of a project.
pub record Builders (W : Type 0) : Type 0 where
  pub docker : (image : String) → Entries → BuildSpec → Exec W (Bytes × Value)
  pub nix : Entries → BuildSpec → Exec W (Bytes × Value)
  pub jit : Entries → BuildSpec → Exec W (Bytes × Value)

abbrev pub publish_error : String → Error
publish_error message = k_dash_error contract message "publish"

abbrev pub publish_refusal : String → Error
publish_refusal message = k_dash_error artifact_integrity message "publish"

-- A file of arguments, `none` if it cannot be read
abbrev pub ArgsFile : Type 0
ArgsFile = Option Bytes

-- The parameter `cuda`: None, a text or a list of texts
pub data CudaVersions : Type 0 where
  no_cuda : CudaVersions
  one_cuda : String → CudaVersions
  many_cuda : List String → CudaVersions

abbrev pub has_cuda : CudaVersions → Bool
has_cuda no_cuda = false
has_cuda (one_cuda v) = true
has_cuda (many_cuda vs) = true

abbrev pub cuda_list : CudaVersions → List String
cuda_list no_cuda = []
cuda_list (one_cuda v) = v ∷ []
cuda_list (many_cuda vs) = vs

abbrev pub is_given : Option String → Bool
is_given none = false
is_given (some cc) = true

-- `cc or ""`
abbrev pub cc_or_empty : Option String → String
cc_or_empty none = ""
cc_or_empty (some cc) = cc

abbrev pub is_empty {ℓ} : {A : Type ℓ} → List A → Bool
is_empty [] = true
is_empty (x ∷ xs) = false

-- A build that is ready to be pushed
pub record Materialized : Type 0 where
  pub key : String
  pub config_bytes : Bytes
  pub layer : Bytes
  pub manifest_bytes : Bytes
  pub digest : String

abbrev pub materialized_of : (key : String) → BuildObjects → Materialized
materialized_of key o = record {
  key = key;
  config_bytes = o.config_bytes;
  layer = o.layer;
  manifest_bytes = o.manifest_bytes;
  digest = o.digest;
}

-- What `publish_release` returns.
pub record Published : Type 0 where
  pub release_digest : String
  pub builds : List (String × String)
  pub registries : List (String × String)

-- `mapping[key] = value`
abbrev pub put_text : (key value : String) → List (String × String) → List (String × String)
put_text key value [] = (key, value) ∷ []
put_text key value ((k, v) ∷ rest) =
    if k == key then (key, value) ∷ rest else (k, v) ∷ put_text key value rest

module _ (lib : Libraries) (rd : Readers) where
  abbrev pub read_args : ArgsFile → Result Value
  read_args none = raise_python os_error
  read_args (some content) = elim (rd.decode content) [
    | none ↦ raise_python value_error
    | some text ↦ loads_no_duplicates lib "publish" content
  ]

  -- `except (OSError, ContractError)`
  abbrev pub or_invalid_args : Result Value → Result Value
  or_invalid_args (err (python_error os_error)) = err (publish_error "AOT args file is invalid")
  or_invalid_args (err (k_dash_error contract message stage)) =
      err (publish_error "AOT args file is invalid")
  or_invalid_args r = r

  -- `_load_args_files`
  unfoldable pub load_args_files : List ArgsFile → (schema : Value) → Result (List Value)
  load_args_files [] schema = ok []
  load_args_files (f ∷ rest) schema = or_invalid_args (read_args f) >>=ᴿ λ raw.
      normalize_args lib raw schema >>=ᴿ λ args.
      load_args_files rest schema >>=ᴿ λ output. ok (args ∷ output)

-- The objects of a build, with the checks of its kernel.so
unfoldable pub checked_objects :
    Libraries
    → Codec
    → ReadElf
    → BuildSpec
    → (kernel_so : Bytes) → (provenance : Value) → Result BuildObjects
checked_objects lib codec read_elf spec kernel_so provenance =
    readable (read_elf kernel_so) >>=ᴿ λ elf.
    build_objects lib codec spec kernel_so provenance (arr (infer_host_dependencies elf))
      (cxx_runtime_value (cxx_runtime_requirement elf))
    >>=ᴿ λ objects.
        validate_kernel_so lib read_elf kernel_so objects.config true >>=ᴿ λ _. ok objects
