-- ===== src/Api.antt =====
-- api.py: `get`, from a kernel's name to the kernel.so in the cache. `load` adds the dynamic linker.
pub mod Builds
pub mod Vetted
pub mod Load
pub mod Loaded
pub mod Sound
use k_dash.Base.{
  ℕ, ◌≡◌, String, Bool, true, false, not, Option, none, some, List, [], ◌∷◌, ◌==◌, if◌then◌else◌,
  Result, ok, err, raise_if, raise_python, Error, k_dash_error, contract, offline_cache_miss,
  key_error, type_error, attribute_error,
}
use k_dash.Base.Exec.{Exec, pure, lift, fail, ◌>>=◌, ◌>>◌}
use k_dash.Json.{Value, null, str, arr, obj, end, Fields, get_field}
use k_dash.External.{Bytes, Libraries}
use k_dash.Model.{TargetSpec, RegistryConfig, RegistrySet}
use k_dash.Canonical.{normalize_args}
use k_dash.Config.{Url, load_registry_set}
use k_dash.Target.{Host, detect_target}
use k_dash.Artifact.{Codec}
use k_dash.Project.Names.{validate_kernel_name}
use k_dash.Cache.{Cache, Files, CachedRelease, get_release, commit_release}
use k_dash.Validation.{ReadElf}
use k_dash.Runtime.{Registries, State, first_layer, resolve_release, pull_release}
use k_dash.Runtime.Materialize.{LocalJit, on_network, read_cache, write_cache, materialize}

-- What the process reads of its surroundings.
pub record Surroundings : Type 0 where
  pub urlparse : String → Result Url
  -- the configuration file, if there is one, as yaml.safe_load returns it
  pub config_file : Option (Result Value)
  pub host : Host
  -- K_DASH_OFFLINE is 1
  pub offline : Bool

-- `isinstance(version, str) and version`
abbrev pub version_of : Value → Result String
version_of (str s) =
    if s == ""
    then err (k_dash_error contract "version must be a non-empty string" "load")
    else ok s
version_of _ = err (k_dash_error contract "version must be a non-empty string" "load")

-- `dict(jit_args or {})`, of None or a mapping
abbrev pub args_of : Value → Result Fields
args_of null = ok end
args_of (obj fs) = ok fs
args_of _ = err (k_dash_error contract "jit_args must be a mapping" "load")

-- A digest that is no text has no `removeprefix`.
abbrev pub digest_text : Value → Result String
digest_text (str s) = ok s
digest_text _ = raise_python attribute_error

-- `release_config["args_schema"]`, of a value with string keys
abbrev pub args_schema : Value → Result Value
args_schema (obj fs) = elim (get_field "args_schema" fs) [
  | none ↦ raise_python key_error
  | some v ↦ ok v
]
args_schema _ = raise_python type_error

abbrev pub release_miss : Error
release_miss = k_dash_error offline_cache_miss "release is absent from the offline cache" "offline"

module _ {W : Type 0} (lib : Libraries) (files : Files) (codec : Codec) (read_elf : ReadElf)
    (jit : LocalJit) (net : Registries W) (around : Surroundings) where
  abbrev pub pull_and_commit : RegistryConfig → (kernel digest : String) → Exec (State W) Value
  pull_and_commit authority kernel digest = do
    release ← on_network (pull_release lib net authority kernel digest)
    layer ← lift (first_layer release.layers)
    write_cache (commit_release files lib codec digest release.config layer)
    pure (obj release.config)

  abbrev pub config_of :
      RegistryConfig → (kernel digest : String) → Option CachedRelease → Exec (State W) Value
  config_of authority kernel digest (some (config, archive, source)) = pure config
  config_of authority kernel digest none =
      if around.offline then fail release_miss else pull_and_commit authority kernel digest

  -- The BuildKey and the directory of the kernel.so
  unfoldable pub get : (kernel version jit_args : Value) → Exec (State W) (String × String)
  get kernel version jit_args = do
    name ← lift (validate_kernel_name kernel)
    wanted ← lift (version_of version)
    raw ← lift (args_of jit_args)
    registries ← lift (load_registry_set around.urlparse around.config_file)
    (resolved, authority) ← resolve_release lib files net name wanted around.offline registries
    digest ← lift (digest_text resolved)
    cached ← read_cache (get_release files digest)
    config ← config_of authority name digest cached
    schema ← lift (args_schema config)
    args ← lift (normalize_args lib (obj raw) schema)
    target ← lift (detect_target around.host)
    materialize lib files codec read_elf jit net around.offline registries authority name digest
        args target
