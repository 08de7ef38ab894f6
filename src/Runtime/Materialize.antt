-- ===== src/Runtime/Materialize.antt =====
-- `_binary_registry` and `materialize`: a build from the cache, from a registry, or built here.
-- `local_jit` is an argument, which the one of Builder.antt fills.
pub mod Steps
pub mod Vetted
pub mod Local
pub mod Failover
use k_dash.Base.{
  ℕ, ◌≡◌, String, Bool, true, false, not, ◌&&◌, Option, none, some, List, [], ◌∷◌, ◌==◌, keep,
  if◌then◌else◌, Result, ok, err, Error, k_dash_error, artifact_not_found, offline_cache_miss,
  assertion_error, python_error,
}
use k_dash.Base.Exec.{Exec, pure, lift, fail, ◌>>=◌, ◌>>◌}
use k_dash.Json.{Value, null, int, str, arr, obj, nil, Fields, fields}
use k_dash.Json.Numbers.{pos}
use k_dash.External.{Bytes, Libraries}
use k_dash.Model.{
  TargetSpec, target_dict, BuildSpec, build_spec, spec_dict, RegistryConfig, RegistrySet,
}
use k_dash.Canonical.{digest_bytes, spec_key, build_tag}
use k_dash.Artifact.{Codec, build_type, extract_binary_archive}
use k_dash.Project.Extract.{Written, extract_source_archive}
use k_dash.Oci.{PulledArtifact}
use k_dash.Cache.{
  Cache, Files, CachedRelease, CachedBuild, dir_name, get_build, get_release, commit_build,
}
use k_dash.Validation.{
  ReadElf, optional_text, cxx_runtime_requirement, readable, validate_build_config,
  validate_kernel_so,
}
use k_dash.Runtime.{Registries, State, is_access_failure, first_layer, pull_release}

-- `local_jit(source, spec)`: kernel.so and its provenance
abbrev pub LocalJit : Type 0
LocalJit = List Written → BuildSpec → Result (Bytes × Value)

abbrev pub is_not_found : Error → Bool
is_not_found (k_dash_error artifact_not_found message stage) = true
is_not_found _ = false

-- `[authority] + [item for item in registries if item.name != authority.name]`
abbrev pub lookup_order : RegistryConfig → RegistrySet → List RegistryConfig
lookup_order authority registries =
    authority ∷ keep (λ r. not (r.name == authority.name)) registries

abbrev pub is_last : List RegistryConfig → Bool
is_last [] = true
is_last (r ∷ rs) = false

abbrev pub cxx_runtime_value : Option (Option String × Option String) → Value
cxx_runtime_value none = null
cxx_runtime_value (some (glibcxx, cxxabi)) = obj (
    fields (
      ("soname", str "libstdc++.so.6")
      ∷ ("required_glibcxx", optional_text glibcxx)
      ∷ ("required_cxxabi", optional_text cxxabi)
      ∷ ("gcc_cxx11_abi", int (pos 1))
      ∷ ("unwind_soname", str "libgcc_s.so.1")
      ∷ []))

abbrev pub source_miss : Error
source_miss = k_dash_error offline_cache_miss "source is absent from the offline cache" "offline"

-- What a build is committed with: its config and its kernel.so
abbrev pub Built : Type 0
Built = Fields × Bytes

abbrev pub cached_source : Option CachedRelease → Result (List Written)
cached_source none = err source_miss
cached_source (some (config, archive, source)) = ok source

module _ {W : Type 0} where
  -- A call that changes only the network
  abbrev pub end_call {ℓ} : {A : Type ℓ} → Cache → Result A × W → Result A × State W
  end_call c (result, w) = (result, record { cache = c; world = w })

  abbrev pub on_network {ℓ} : {A : Type ℓ} → Exec W A → Exec (State W) A
  on_network call s = end_call s.cache (call s.world)

  abbrev pub read_cache {ℓ} : {A : Type ℓ} → (Cache → Result A) → Exec (State W) A
  read_cache call s = (call s.cache, s)

  abbrev pub end_commit : State W → Result Cache → Result (Unit {0}) × State W
  end_commit s (ok c) = (ok tt, record s { cache = c })
  end_commit s (err e) = (err e, s)

  abbrev pub write_cache : (Cache → Result Cache) → Exec (State W) (Unit {0})
  write_cache call s = end_commit s (call s.cache)

module _ {W : Type 0} (net : Registries W) (kernel tag : String) where
  -- What the loop does with the answer of one registry
  abbrev pub next_registry :
      RegistryConfig
      → (last : Bool) → Exec W (Option PulledArtifact × RegistryConfig)
      → Result PulledArtifact × W
      → Result (Option PulledArtifact × RegistryConfig) × W
  next_registry r last rest (ok artifact, w) = (ok (some artifact, r), w)
  next_registry r last rest (err e, w) =
      if is_not_found e
      then (ok (none, r), w)
      else if is_access_failure e && not last
      then rest w
      else (err e, w)

  unfoldable pub find_binary : List RegistryConfig → Exec W (Option PulledArtifact × RegistryConfig)
  find_binary [] w = (err (python_error assertion_error), w)
  find_binary (r ∷ rs) w =
      next_registry r (is_last rs) (find_binary rs) (net.pull r kernel tag build_type w)

module _ {W : Type 0} (lib : Libraries) (files : Files) (codec : Codec) (read_elf : ReadElf)
    (jit : LocalJit) (net : Registries W) where
  abbrev pub local_config : BuildSpec → (key : String) → (provenance cxx : Value) → Bytes → Fields
  local_config spec key provenance cxx kernel_so = fields (
      ("protocol_version", int (pos 1))
      ∷ ("release_digest", str spec.release_digest)
      ∷ ("buildspec", spec_dict spec)
      ∷ ("build_key", str key)
      ∷ ("provenance", provenance)
      ∷ ("host_dependencies", arr nil)
      ∷ ("cxx_runtime", cxx)
      ∷ ("kernel_so_digest", str (digest_bytes lib kernel_so))
      ∷ [])

  -- Building from sources, and checking what was built
  unfoldable pub build_locally : BuildSpec → (key : String) → List Written → Exec (State W) Built
  build_locally spec key source = do
    (kernel_so, provenance) ← lift (jit source spec)
    elf ← lift (readable (read_elf kernel_so))
    let config =
        local_config spec key provenance (cxx_runtime_value (cxx_runtime_requirement elf)) kernel_so
    lift (validate_kernel_so lib read_elf kernel_so config true)
    pure (config, kernel_so)

  -- A build that a registry has
  unfoldable pub use_binary : (key release_digest : String) → PulledArtifact → Exec (State W) Built
  use_binary key release_digest artifact = do
    lift (validate_build_config lib artifact.config key release_digest)
    layer ← lift (first_layer artifact.layers)
    kernel_so ← lift (extract_binary_archive codec layer)
    lift (validate_kernel_so lib read_elf kernel_so artifact.config true)
    pure (artifact.config, kernel_so)

  unfoldable pub build_release :
      (kernel : String) → BuildSpec → (key : String) → RegistryConfig → Exec (State W) Built
  unfolding build_locally
  build_release kernel spec key authority = do
    release ← on_network (pull_release lib net authority kernel spec.release_digest)
    layer ← lift (first_layer release.layers)
    source ← lift (extract_source_archive codec layer)
    build_locally spec key source

  abbrev pub use_or_build :
      (kernel : String)
      → BuildSpec
      → (key : String) → Option PulledArtifact × RegistryConfig
      → Exec (State W) Built
  use_or_build kernel spec key (some artifact, r) = use_binary key spec.release_digest artifact
  use_or_build kernel spec key (none, r) = build_release kernel spec key r

  unfoldable pub build_offline : BuildSpec → (key : String) → Exec (State W) Built
  unfolding build_locally
  build_offline spec key = do
    cached ← read_cache (get_release files spec.release_digest)
    source ← lift (cached_source cached)
    build_locally spec key source

  unfoldable pub build_online :
      RegistrySet
      → RegistryConfig
      → (kernel : String) → BuildSpec
      → (key : String) → Exec (State W) Built
  unfolding use_binary build_release
  build_online registries authority kernel spec key = do
    tag ← lift (build_tag key)
    found ← on_network (find_binary net kernel tag (lookup_order authority registries))
    use_or_build kernel spec key found

  abbrev pub obtain :
      (offline : Bool)
      → RegistrySet
      → RegistryConfig
      → (kernel : String) → BuildSpec
      → (key : String) → Exec (State W) Built
  obtain true registries authority kernel spec key = build_offline spec key
  obtain false registries authority kernel spec key =
      build_online registries authority kernel spec key

  abbrev pub obtain_and_commit :
      (offline : Bool)
      → RegistrySet
      → RegistryConfig
      → (kernel : String) → BuildSpec
      → (key : String) → Exec (State W) (String × String)
  obtain_and_commit offline registries authority kernel spec key = do
    (config, kernel_so) ← obtain offline registries authority kernel spec key
    write_cache (commit_build files lib key config kernel_so)
    pure (key, dir_name key)

  abbrev pub unless_cached :
      (key : String)
      → Exec (State W) (String × String)
      → Option CachedBuild
      → Exec (State W) (String × String)
  unless_cached key build (some cached) = pure (key, dir_name key)
  unless_cached key build none = build

  -- What is done under the lock; another process may have committed the build before it was taken.
  unfoldable pub materialize_locked :
      (offline : Bool)
      → RegistrySet
      → RegistryConfig
      → (kernel : String) → BuildSpec
      → (key : String) → Exec (State W) (String × String)
  unfolding build_offline build_online
  materialize_locked offline registries authority kernel spec key = do
    cached ← read_cache (get_build files key)
    unless_cached key (obtain_and_commit offline registries authority kernel spec key) cached

  -- The BuildKey and the directory below `builds` whose kernel.so is to be loaded.
  unfoldable pub materialize :
      (offline : Bool)
      → RegistrySet
      → RegistryConfig
      → (kernel release_digest : String) → (args : Value) → TargetSpec
      → Exec (State W) (String × String)
  unfolding materialize_locked
  materialize offline registries authority kernel release_digest args target = do
    let spec = build_spec release_digest args (target_dict target)
    key ← lift (spec_key lib spec)
    cached ← read_cache (get_build files key)
    unless_cached key (materialize_locked offline registries authority kernel spec key) cached
