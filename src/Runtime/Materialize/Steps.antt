-- ===== src/Runtime/Materialize/Steps.antt =====
-- What the steps of `materialize` before the commit do to the cache, and what they have validated.
use k_dash.Base.{
  ◌≡◌, ◌∙◌, refl, ap, subst, String, Bool, true, false, Option, none, some, List, Result, ok, err,
  ok_injective,
}
use k_dash.Base.Exec.{Exec, pure, lift, ◌>>=◌, continue, on_run}
use k_dash.Json.{Fields}
use k_dash.External.{Bytes, Libraries}
use k_dash.Model.{BuildSpec, RegistryConfig, RegistrySet}
use k_dash.Canonical.{build_tag}
use k_dash.Artifact.{Codec, extract_binary_archive}
use k_dash.Project.Extract.{Written, extract_source_archive}
use k_dash.Oci.{PulledArtifact}
use k_dash.Cache.{Files, get_release}
use k_dash.Validation.{
  ReadElf, cxx_runtime_requirement, readable, validate_build_config, validate_kernel_so,
}
use k_dash.Runtime.{Registries, State, first_layer, pull_release}
use k_dash.Runtime.Materialize.{
  LocalJit, Built, cached_source, lookup_order, find_binary, on_network, read_cache, local_config,
  cxx_runtime_value, build_locally, use_binary, build_release, use_or_build, build_offline,
  build_online, obtain,
}

-- Calls that leave the cache alone.
module _ {W : Type 0} where
  abbrev pub Stays {ℓ} : {A : Type ℓ} → Exec (State W) A → Type 0
  Stays m = (s : State W) → (m s).1.cache ≡ s.cache

  bind-Stays {ℓ κ} :
      {A : Type ℓ} {B : Type κ} (m : Exec (State W) A) (f : A → Exec (State W) B)
      → Stays m
      → ((a : A) → Stays (f a))
      → Stays (m >>= f)
  bind-Stays {A = A} {B = B} m f p q s = go (m s) (p s)
    where
      go : (r : Result A × State W) → r.1.cache ≡ s.cache → (continue f r).1.cache ≡ s.cache
      go (ok a, t) e = q a t ∙ e
      go (err x, t) e = e

module _ {W : Type 0} (lib : Libraries) (files : Files) (codec : Codec) (read_elf : ReadElf)
    (jit : LocalJit) (net : Registries W) where
  build_locally-Stays :
      (spec : BuildSpec) (key : String) (source : List Written)
      → Stays (build_locally lib files codec read_elf jit net spec key source)
  unfolding build_locally
  build_locally-Stays spec key source =
      bind-Stays (lift (jit source spec)) _ (λ s. refl)
        λ built.
          bind-Stays (lift (readable (read_elf built.0))) _ (λ s. refl)
            λ elf.
              bind-Stays
                (lift (
                  validate_kernel_so lib read_elf built.0
                    (local_config lib files codec read_elf jit net spec key built.1
                      (cxx_runtime_value (cxx_runtime_requirement elf)) built.0)
                    true))
                _ (λ s. refl) λ _ s. refl

  use_binary-Stays :
      (key digest : String) (artifact : PulledArtifact)
      → Stays (use_binary lib files codec read_elf jit net key digest artifact)
  unfolding use_binary
  use_binary-Stays key digest artifact =
      bind-Stays (lift (validate_build_config lib artifact.config key digest)) _ (λ s. refl)
        λ _.
          bind-Stays (lift (first_layer artifact.layers)) _ (λ s. refl)
            λ layer.
              bind-Stays (lift (extract_binary_archive codec layer)) _ (λ s. refl)
                λ kernel_so.
                  bind-Stays (lift (validate_kernel_so lib read_elf kernel_so artifact.config true))
                    _ (λ s. refl) λ _ s. refl

  build_release-Stays :
      (kernel : String) (spec : BuildSpec) (key : String) (authority : RegistryConfig)
      → Stays (build_release lib files codec read_elf jit net kernel spec key authority)
  unfolding build_release
  build_release-Stays kernel spec key authority =
      bind-Stays (on_network (pull_release lib net authority kernel spec.release_digest)) _
        (λ s. refl)
        λ release.
          bind-Stays (lift (first_layer release.layers)) _ (λ s. refl)
            λ layer.
              bind-Stays (lift (extract_source_archive codec layer)) _ (λ s. refl)
                λ source. build_locally-Stays spec key source

  use_or_build-Stays :
      (kernel : String) (spec : BuildSpec) (key : String)
      (found : Option PulledArtifact × RegistryConfig)
      → Stays (use_or_build lib files codec read_elf jit net kernel spec key found)
  use_or_build-Stays kernel spec key (some artifact, r) =
      use_binary-Stays key spec.release_digest artifact
  use_or_build-Stays kernel spec key (none, r) = build_release-Stays kernel spec key r

  pub obtain-Stays :
      (offline : Bool) (registries : RegistrySet) (authority : RegistryConfig) (kernel : String)
      (spec : BuildSpec) (key : String)
      → Stays (obtain lib files codec read_elf jit net offline registries authority kernel spec key)
  unfolding build_offline build_online
  obtain-Stays true registries authority kernel spec key =
      bind-Stays (read_cache (get_release files spec.release_digest)) _ (λ s. refl)
        λ cached.
          bind-Stays (lift (cached_source cached)) _ (λ s. refl)
            λ source. build_locally-Stays spec key source
  obtain-Stays false registries authority kernel spec key =
      bind-Stays (lift (build_tag key)) _ (λ s. refl)
        λ tag.
          bind-Stays (on_network (find_binary net kernel tag (lookup_order authority registries))) _
            (λ s. refl) λ found. use_or_build-Stays kernel spec key found

  -- What the calls return has passed the validation of kernel.so.
  abbrev pub Validated : Exec (State W) Built → Type 0
  Validated m =
      (s t : State W) (config : Fields) (kernel_so : Bytes)
      → m s ≡ (ok (config, kernel_so), t)
      → validate_kernel_so lib read_elf kernel_so config true ≡ ok tt

  bind-Validated {ℓ} :
      {A : Type ℓ} (m : Exec (State W) A) (f : A → Exec (State W) Built)
      → ((a : A) → Validated (f a))
      → Validated (m >>= f)
  bind-Validated m f q s t config kernel_so h = on_run m f s h λ a u _ e. q a u t config kernel_so e

  checked_last :
      (config : Fields) (kernel_so : Bytes)
      → Validated (
          lift (validate_kernel_so lib read_elf kernel_so config true) >>= λ _.
          pure (config, kernel_so))
  checked_last config kernel_so s t config' kernel_so' h =
      on_run (lift (validate_kernel_so lib read_elf kernel_so config true)) _ s h λ _ u passed e.
        let pair = ok_injective (ap (λ (x : Result Built × State W). x.0) e) in
        subst (λ (x : Built). validate_kernel_so lib read_elf x.1 x.0 true ≡ ok tt) pair
          (ap (λ (x : Result (Unit {0}) × State W). x.0) passed)

  build_locally-Validated :
      (spec : BuildSpec) (key : String) (source : List Written)
      → Validated (build_locally lib files codec read_elf jit net spec key source)
  unfolding build_locally
  build_locally-Validated spec key source = bind-Validated (lift (jit source spec)) _ λ built.
      bind-Validated (lift (readable (read_elf built.0))) _ λ elf.
        checked_last
          (local_config lib files codec read_elf jit net spec key built.1
            (cxx_runtime_value (cxx_runtime_requirement elf)) built.0)
          built.0

  use_binary-Validated :
      (key digest : String) (artifact : PulledArtifact)
      → Validated (use_binary lib files codec read_elf jit net key digest artifact)
  unfolding use_binary
  use_binary-Validated key digest artifact =
      bind-Validated (lift (validate_build_config lib artifact.config key digest)) _ λ _.
        bind-Validated (lift (first_layer artifact.layers)) _ λ layer.
          bind-Validated (lift (extract_binary_archive codec layer)) _
            λ kernel_so. checked_last artifact.config kernel_so

  build_release-Validated :
      (kernel : String) (spec : BuildSpec) (key : String) (authority : RegistryConfig)
      → Validated (build_release lib files codec read_elf jit net kernel spec key authority)
  unfolding build_release
  build_release-Validated kernel spec key authority =
      bind-Validated (on_network (pull_release lib net authority kernel spec.release_digest)) _
        λ release. bind-Validated (lift (first_layer release.layers)) _ λ layer.
          bind-Validated (lift (extract_source_archive codec layer)) _
            λ source. build_locally-Validated spec key source

  use_or_build-Validated :
      (kernel : String) (spec : BuildSpec) (key : String)
      (found : Option PulledArtifact × RegistryConfig)
      → Validated (use_or_build lib files codec read_elf jit net kernel spec key found)
  use_or_build-Validated kernel spec key (some artifact, r) =
      use_binary-Validated key spec.release_digest artifact
  use_or_build-Validated kernel spec key (none, r) = build_release-Validated kernel spec key r

  pub obtain-Validated :
      (offline : Bool) (registries : RegistrySet) (authority : RegistryConfig) (kernel : String)
      (spec : BuildSpec) (key : String)
      → Validated
          (obtain lib files codec read_elf jit net offline registries authority kernel spec key)
  unfolding build_offline build_online
  obtain-Validated true registries authority kernel spec key =
      bind-Validated (read_cache (get_release files spec.release_digest)) _ λ cached.
        bind-Validated (lift (cached_source cached)) _
          λ source. build_locally-Validated spec key source
  obtain-Validated false registries authority kernel spec key =
      bind-Validated (lift (build_tag key)) _ λ tag.
        bind-Validated (on_network (find_binary net kernel tag (lookup_order authority registries)))
          _ λ found. use_or_build-Validated kernel spec key found
