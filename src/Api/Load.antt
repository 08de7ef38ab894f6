-- ===== src/Api/Load.antt =====
-- `load` of api.py: a module for a kernel, once for each path. The locks have no state of their own here.
use k_dash.Base.{
  String, Option, none, some, List, [], ◌∷◌, ◌==◌, if◌then◌else◌, Result, ok, raise_python,
  os_error, import_error, attribute_error, ◌>>=◌ as ◌>>=ᴿ◌,
}
use k_dash.Base.Exec.{Exec, pure, lift, ◌>>=◌, ◌>>◌}
use k_dash.Json.{Value, obj, Fields}
use k_dash.External.{Libraries}
use k_dash.Artifact.{Codec}
use k_dash.Cache.{Files, BuildDir, find_dir}
use k_dash.Validation.{ReadElf, validate_tvm_ffi_runtime}
use k_dash.Validation.Host.{Linker, Process}
use k_dash.Validation.Host.Packages.{validate_host_dependencies}
use k_dash.Validation.Host.Cxx.{validate_host_cxx_runtime}
use k_dash.Runtime.{Registries, State}
use k_dash.Runtime.Materialize.{LocalJit}
use k_dash.Api.{Surroundings, get}

-- tvm_ffi, over a process in some state
pub record Loader (P M : Type 0) : Type 0 where
  -- `tvm_ffi.__version__`, `none` if the import fails
  pub version : Option String
  -- `tvm_ffi.load_module`
  pub load_module : (path : String) → Exec P M

-- The state of `load`: the cache and the network, the process and the modules by their path
pub record Program (W P M : Type 0) : Type 0 where
  pub inner : State W
  pub process : Process P
  pub modules : List (String × M)

module _ {M : Type 0} where
  abbrev pub find_module : (key : String) → List (String × M) → Option M
  find_module key [] = none
  find_module key ((k, m) ∷ rest) = if k == key then some m else find_module key rest

module _ {P M : Type 0} where
  abbrev pub end_load : Process P → Result M × P → Result M × Process P
  end_load p (result, q) = (result, record p { inner = q })

  abbrev pub load_in : Loader P M → (path : String) → Exec (Process P) M
  load_in loader path p = end_load p (loader.load_module path p.inner)

module _ {W P M : Type 0} where
  abbrev pub end_state {ℓ} :
      {A : Type ℓ} → Program W P M → Result A × State W → Result A × Program W P M
  end_state s (result, t) = (result, record s { inner = t })

  abbrev pub on_state {ℓ} : {A : Type ℓ} → Exec (State W) A → Exec (Program W P M) A
  on_state call s = end_state s (call s.inner)

  abbrev pub end_process {ℓ} :
      {A : Type ℓ} → Program W P M → Result A × Process P → Result A × Program W P M
  end_process s (result, p) = (result, record s { process = p })

  abbrev pub on_process {ℓ} : {A : Type ℓ} → Exec (Process P) A → Exec (Program W P M) A
  on_process call s = end_process s (call s.process)

  abbrev pub keep_module : (key : String) → M → Exec (Program W P M) M
  keep_module key m s = (ok m, record s { modules = (key, m) ∷ s.modules })

  abbrev pub get_modules : Exec (Program W P M) (List (String × M))
  get_modules s = (ok s.modules, s)

abbrev pub imported : Option String → Result String
imported none = raise_python import_error
imported (some version) = ok version

-- `value.get(…)` of what is no dict
abbrev pub config_fields : Value → Result Fields
config_fields (obj fs) = ok fs
config_fields _ = raise_python attribute_error

-- The config.json beside a kernel.so
abbrev pub config_in : Files → Option BuildDir → Result Fields
config_in files none = raise_python os_error
config_in files (some dir) = elim dir.config [
  | none ↦ raise_python os_error
  | some bytes ↦ files.read_json bytes >>=ᴿ config_fields
]

module _ {W P M : Type 0} (files : Files) (linker : Linker P) (loader : Loader P M) where
  abbrev pub read_config : (directory : String) → Exec (State W) Fields
  read_config directory s = (config_in files (find_dir directory s.cache.builds), s)

  -- What is done for a path that was not loaded yet
  unfoldable pub load_new : (directory : String) → Exec (Program W P M) M
  load_new directory = do
    version ← lift (imported loader.version)
    config ← on_state (read_config directory)
    lift (validate_tvm_ffi_runtime config version)
    on_process (validate_host_dependencies linker config)
    on_process (validate_host_cxx_runtime linker config)
    m ← on_process (load_in loader directory)
    keep_module directory m

  abbrev pub unless_loaded : (directory : String) → Option M → Exec (Program W P M) M
  unless_loaded directory (some m) = pure m
  unless_loaded directory none = load_new directory

  -- What `load` does with the path of a kernel.so
  unfoldable pub load_path : (directory : String) → Exec (Program W P M) M
  unfolding load_new
  load_path directory = do
    modules ← get_modules
    unless_loaded directory (find_module directory modules)

module _ {W P M : Type 0} (lib : Libraries) (files : Files) (codec : Codec) (read_elf : ReadElf)
    (jit : LocalJit) (net : Registries W) (around : Surroundings) (linker : Linker P)
    (loader : Loader P M) where
  unfoldable pub load : (kernel version jit_args : Value) → Exec (Program W P M) M
  unfolding load_path
  load kernel version jit_args = do
    (key, directory) ←
        on_state (get lib files codec read_elf jit net around kernel version jit_args)
    load_path files linker loader directory
