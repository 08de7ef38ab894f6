-- ===== src/Api/Sound.antt =====
-- `get` and `load` leave a sound cache.
use k_dash.Base.{sym, subst, String, Bool, Option, none, some, Result, ok, err}
use k_dash.Base.Exec.{Exec, lift, ◌>>=◌, continue}
use k_dash.Json.{Value, obj}
use k_dash.External.{Libraries}
use k_dash.Model.{RegistryConfig, RegistrySet, TargetSpec, BuildSpec, build_spec, target_dict}
use k_dash.Canonical.{normalize_args, spec_key}
use k_dash.Config.{load_registry_set}
use k_dash.Target.{detect_target}
use k_dash.Artifact.{Codec}
use k_dash.Project.Names.{validate_kernel_name}
use k_dash.Cache.{
  Files, CachedRelease, CachedBuild, get_release, get_build, commit_release, commit_build,
}
use k_dash.Cache.Sound.{IsSound, IsSound-same, commit_build-IsSound, commit_release-IsSound}
use k_dash.Validation.{ReadElf, validate_tvm_ffi_runtime}
use k_dash.Validation.Host.Packages.{validate_host_dependencies}
use k_dash.Validation.Host.Cxx.{validate_host_cxx_runtime}
use k_dash.Runtime.{Registries, State, first_layer, resolve_release, pull_release}
use k_dash.Runtime.Materialize.{
  LocalJit, read_cache, write_cache, obtain, obtain_and_commit, unless_cached, materialize_locked,
  materialize,
}
use k_dash.Runtime.Materialize.Steps.{obtain-Stays}
use k_dash.Validation.Host.{Linker}
use k_dash.Api.{Surroundings, version_of, args_of, digest_text, args_schema, config_of, get}
use k_dash.Api.Load.{
  Loader, Program, find_module, on_state, on_process, load_in, imported, read_config, unless_loaded,
  load_path, load_new, load,
}
use k_dash.Runtime.Keeps.{bind-Keeps, choose-Keeps}
use k_dash.Runtime.Sound.{KeepsSound, lift-KeepsSound, network-KeepsSound, write_cache-KeepsSound}
use k_dash.Api.Builds.{resolve_release-Keeps}

module _ {W : Type 0} (lib : Libraries) (files : Files) (codec : Codec) (read_elf : ReadElf)
    (jit : LocalJit) (net : Registries W) where
  obtain_and_commit-KeepsSound :
      (offline : Bool) (registries : RegistrySet) (authority : RegistryConfig) (kernel : String)
      (spec : BuildSpec) (key : String)
      → KeepsSound (
          obtain_and_commit lib files codec read_elf jit net offline registries authority kernel
            spec key)
  obtain_and_commit-KeepsSound offline registries authority kernel spec key =
      bind-Keeps IsSound
        (obtain lib files codec read_elf jit net offline registries authority kernel spec key) _
        (λ s i.
          subst IsSound
            (sym (
              obtain-Stays lib files codec read_elf jit net offline registries authority kernel spec
                key s))
            i)
        λ built.
          bind-Keeps IsSound (write_cache (commit_build files lib key built.0 built.1)) _
            (write_cache-KeepsSound (commit_build files lib key built.0 built.1)
              λ c d. commit_build-IsSound files lib key built.0 built.1 c)
            λ _ s i. i

  unless_cached-KeepsSound :
      (key : String) (build : Exec (State W) (String × String)) (o : Option CachedBuild)
      → KeepsSound build
      → KeepsSound (unless_cached lib files codec read_elf jit net key build o)
  unless_cached-KeepsSound key build (some cached) k = λ s i. i
  unless_cached-KeepsSound key build none k = k

  materialize_locked-KeepsSound :
      (offline : Bool) (registries : RegistrySet) (authority : RegistryConfig) (kernel : String)
      (spec : BuildSpec) (key : String)
      → KeepsSound (
          materialize_locked lib files codec read_elf jit net offline registries authority kernel
            spec key)
  unfolding materialize_locked
  materialize_locked-KeepsSound offline registries authority kernel spec key =
      bind-Keeps IsSound (read_cache (get_build files key)) _ (λ s i. i)
        λ cached.
          unless_cached-KeepsSound key _ cached
            (obtain_and_commit-KeepsSound offline registries authority kernel spec key)

  pub materialize-KeepsSound :
      (offline : Bool) (registries : RegistrySet) (authority : RegistryConfig)
      (kernel digest : String) (args : Value) (target : TargetSpec)
      → KeepsSound (
          materialize lib files codec read_elf jit net offline registries authority kernel digest
            args target)
  unfolding materialize
  materialize-KeepsSound offline registries authority kernel digest args target =
      let spec = build_spec digest args (target_dict target) in
      lift-KeepsSound (spec_key lib spec) _ λ key.
        bind-Keeps IsSound (read_cache (get_build files key)) _ (λ s i. i)
          λ cached.
            unless_cached-KeepsSound key _ cached
              (materialize_locked-KeepsSound offline registries authority kernel spec key)

  module _ (around : Surroundings) where
    config_of-KeepsSound :
        (authority : RegistryConfig) (kernel digest : String) (o : Option CachedRelease)
        → KeepsSound (config_of lib files codec read_elf jit net around authority kernel digest o)
    config_of-KeepsSound authority kernel digest (some (config, archive, source)) = λ s i. i
    config_of-KeepsSound authority kernel digest none =
        choose-Keeps IsSound around.offline _ _ (λ s i. i)
          (network-KeepsSound (pull_release lib net authority kernel digest) _ λ release.
            lift-KeepsSound (first_layer release.layers) _ λ layer.
              bind-Keeps IsSound
                (write_cache (commit_release files lib codec digest release.config layer)) _
                (write_cache-KeepsSound (commit_release files lib codec digest release.config layer)
                  λ c d. commit_release-IsSound files lib codec digest release.config layer c)
                λ _ s i. i)

    pub get-KeepsSound :
        (kernel version jit_args : Value)
        → KeepsSound (get lib files codec read_elf jit net around kernel version jit_args)
    unfolding get
    get-KeepsSound kernel version jit_args = lift-KeepsSound (validate_kernel_name kernel) _ λ name.
        lift-KeepsSound (version_of version) _ λ wanted. lift-KeepsSound (args_of jit_args) _ λ raw.
          lift-KeepsSound (load_registry_set around.urlparse around.config_file) _ λ registries.
            bind-Keeps IsSound (resolve_release lib files net name wanted around.offline registries)
              _
              (resolve_release-Keeps IsSound IsSound-same lib files net name wanted around.offline
                registries)
              λ resolved. lift-KeepsSound (digest_text resolved.0) _ λ digest.
                bind-Keeps IsSound (read_cache (get_release files digest)) _ (λ s i. i)
                  λ cached.
                    bind-Keeps IsSound
                      (config_of lib files codec read_elf jit net around resolved.1 name digest
                        cached)
                      _ (config_of-KeepsSound resolved.1 name digest cached)
                      λ config. lift-KeepsSound (args_schema config) _ λ schema.
                        lift-KeepsSound (normalize_args lib (obj raw) schema) _ λ args.
                          lift-KeepsSound (detect_target around.host) _ λ target.
                            materialize-KeepsSound around.offline registries resolved.1 name digest
                              args target

module _ {W P M : Type 0} where
  abbrev SoundProgram {ℓ} : {A : Type ℓ} → Exec (Program W P M) A → Type 0
  SoundProgram m = (s : Program W P M) → IsSound s.inner.cache → IsSound (m s).1.inner.cache

  bind-SoundProgram {ℓ κ} :
      {A : Type ℓ} {B : Type κ} (m : Exec (Program W P M) A) (f : A → Exec (Program W P M) B)
      → SoundProgram m
      → ((a : A) → SoundProgram (f a))
      → SoundProgram (m >>= f)
  bind-SoundProgram {A = A} m f p q s i = go (m s) (p s i)
    where
      go :
          (r : Result A × Program W P M)
          → IsSound r.1.inner.cache
          → IsSound (continue f r).1.inner.cache
      go (ok a, t) j = q a t j
      go (err x, t) j = j

  on_state-SoundProgram {ℓ} :
      {A : Type ℓ} (call : Exec (State W) A)
      → KeepsSound call
      → SoundProgram (on_state {P = P} {M = M} call)
  on_state-SoundProgram call k s i = k s.inner i

  module _ (files : Files) (linker : Linker P) (loader : Loader P M) where
    load_new-SoundProgram :
        (directory : String) → SoundProgram (load_new files linker loader directory)
    unfolding load_new
    load_new-SoundProgram directory =
        bind-SoundProgram (lift (imported loader.version)) _ (λ s i. i)
          λ version.
            bind-SoundProgram (on_state (read_config files linker loader directory)) _ (λ s i. i)
              λ config.
                bind-SoundProgram (lift (validate_tvm_ffi_runtime config version)) _ (λ s i. i)
                  λ _.
                    bind-SoundProgram (on_process (validate_host_dependencies linker config)) _
                      (λ s i. i)
                      λ _.
                        bind-SoundProgram (on_process (validate_host_cxx_runtime linker config)) _
                          (λ s i. i)
                          λ _.
                            bind-SoundProgram (on_process (load_in loader directory)) _ (λ s i. i)
                              λ m s i. i

    load_path-SoundProgram :
        (directory : String) → SoundProgram (load_path files linker loader directory)
    unfolding load_path
    load_path-SoundProgram directory s i = go (find_module directory s.modules)
      where
        go :
            (o : Option M) → IsSound (unless_loaded files linker loader directory o s).1.inner.cache
        go (some m) = i
        go none = load_new-SoundProgram directory s i

module _ {W P M : Type 0} (lib : Libraries) (files : Files) (codec : Codec) (read_elf : ReadElf)
    (jit : LocalJit) (net : Registries W) (around : Surroundings) (linker : Linker P)
    (loader : Loader P M) where
  -- Whatever `load` is called with, and wherever it fails, in the network, in a build, in a check of the host
  -- or in the loader, it leaves a cache in which no two builds and no two releases have the same directory,
  -- every build has its config and its kernel.so, and every release its config, its archive and its sources,
  -- if that held before.
  pub load-IsSound :
      (kernel version jit_args : Value) (s : Program W P M)
      → IsSound s.inner.cache
      → IsSound
          (load lib files codec read_elf jit net around linker loader kernel version jit_args
            s).1.inner.cache
  unfolding load
  load-IsSound kernel version jit_args =
      bind-SoundProgram
        (on_state (get lib files codec read_elf jit net around kernel version jit_args)) _
        (on_state-SoundProgram (get lib files codec read_elf jit net around kernel version jit_args)
          (get-KeepsSound lib files codec read_elf jit net around kernel version jit_args))
        λ found. load_path-SoundProgram files linker loader found.1
