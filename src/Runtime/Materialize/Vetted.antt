-- ===== src/Runtime/Materialize/Vetted.antt =====
-- Nothing enters the cache that was not validated.
use k_dash.Base.{
  ◌≡◌, ◌∙◌, refl, sym, ap, subst, String, Bool, true, Option, none, some, All, Result, ok, err,
}
use k_dash.Base.Exec.{Exec, pure, continue}
use k_dash.Json.{Value, obj, Fields}
use k_dash.External.{Bytes, Libraries}
use k_dash.Model.{TargetSpec, target_dict, BuildSpec, build_spec, RegistryConfig, RegistrySet}
use k_dash.Canonical.{canonical_json, spec_key}
use k_dash.Artifact.{Codec}
use k_dash.Cache.{BuildDir, Cache, CachedBuild, Files, dir_name, get_build, commit_build}
use k_dash.Cache.Laws.{on_commit}
use k_dash.Validation.{ReadElf, validate_kernel_so}
use k_dash.Runtime.{Registries, State}
use k_dash.Runtime.Materialize.{
  LocalJit, Built, end_commit, obtain, obtain_and_commit, unless_cached, materialize_locked,
  materialize,
}
use k_dash.Runtime.Materialize.Steps.{obtain-Stays, obtain-Validated}

module _ (lib : Libraries) (read_elf : ReadElf) where
  -- A build that is complete, and whose kernel.so has passed the validation with its config.
  pub record IsVetted (dir : BuildDir) : Type 0 where
    pub config : Fields
    pub bytes : Bytes
    pub contents : Bytes
    pub config_is : dir.config ≡ some bytes
    pub kernel_so_is : dir.kernel_so ≡ some contents
    pub is_canonical : canonical_json lib (obj config) ≡ ok bytes
    pub validated : validate_kernel_so lib read_elf contents config true ≡ ok tt

  abbrev pub AllVetted : Cache → Type 0
  AllVetted c = All (λ (entry : String × BuildDir). IsVetted entry.1) c.builds

module _ {W : Type 0} (lib : Libraries) (files : Files) (codec : Codec) (read_elf : ReadElf)
    (jit : LocalJit) (net : Registries W) where
  commit_build-AllVetted :
      (key : String) (config : Fields) (kernel_so : Bytes) (c : Cache) {d : Cache}
      → validate_kernel_so lib read_elf kernel_so config true ≡ ok tt
      → AllVetted lib read_elf c
      → commit_build files lib key config kernel_so c ≡ ok d
      → AllVetted lib read_elf d
  commit_build-AllVetted key config kernel_so c passed vetted h =
      on_commit lib files key config kernel_so c h
        (λ _ _ same. subst (AllVetted lib read_elf) same vetted)
        λ bytes _ p same. subst (AllVetted lib read_elf) same (
          record {
            config = config;
            bytes = bytes;
            contents = kernel_so;
            config_is = refl;
            kernel_so_is = refl;
            is_canonical = p;
            validated = passed;
          },
          vetted,
        )

  obtain_and_commit-AllVetted :
      (offline : Bool) (registries : RegistrySet) (authority : RegistryConfig) (kernel : String)
      (spec : BuildSpec) (key : String) (s : State W)
      → AllVetted lib read_elf s.cache
      → AllVetted lib read_elf
          (obtain_and_commit lib files codec read_elf jit net offline registries authority kernel
            spec key s).1.cache
  obtain_and_commit-AllVetted offline registries authority kernel spec key s vetted =
      obtained
        (obtain lib files codec read_elf jit net offline registries authority kernel spec key s)
        refl
    where
      unchanged :
          {r : Result Built} (t : State W)
          → obtain lib files codec read_elf jit net offline registries authority kernel spec key s
            ≡ (r, t)
          → t.cache ≡ s.cache
      unchanged t e =
          ap (λ (x : Result Built × State W). x.1.cache) (sym e)
          ∙ obtain-Stays lib files codec read_elf jit net offline registries authority kernel spec
              key s

      finish : Built → State W → Result Cache → Result (String × String) × State W
      finish built t r = continue (λ _. pure (key, dir_name key)) (end_commit t r)

      committed :
          (config : Fields) (kernel_so : Bytes) (t : State W) (r : Result Cache)
          → commit_build files lib key config kernel_so t.cache ≡ r
          → validate_kernel_so lib read_elf kernel_so config true ≡ ok tt
          → AllVetted lib read_elf t.cache
          → AllVetted lib read_elf (finish (config, kernel_so) t r).1.cache
      committed config kernel_so t (ok d) e passed v =
          commit_build-AllVetted key config kernel_so t.cache passed v e
      committed config kernel_so t (err x) e passed v = v

      obtained :
          (r : Result Built × State W)
          → obtain lib files codec read_elf jit net offline registries authority kernel spec key s
            ≡ r
          → AllVetted lib read_elf
              (continue
                (λ (built : Built) t.
                  finish built t (commit_build files lib key built.0 built.1 t.cache))
                r).1.cache
      obtained (ok (config, kernel_so), t) e =
          committed config kernel_so t (commit_build files lib key config kernel_so t.cache) refl
            (obtain-Validated lib files codec read_elf jit net offline registries authority kernel
              spec key s t config kernel_so e)
            (subst (AllVetted lib read_elf) (sym (unchanged t e)) vetted)
      obtained (err x, t) e = subst (AllVetted lib read_elf) (sym (unchanged t e)) vetted

  unless_cached-AllVetted :
      (key : String) (build : Exec (State W) (String × String)) (o : Result (Option CachedBuild))
      (s : State W)
      → AllVetted lib read_elf s.cache
      → AllVetted lib read_elf (build s).1.cache
      → AllVetted lib read_elf
          (continue (unless_cached lib files codec read_elf jit net key build) (o, s)).1.cache
  unless_cached-AllVetted key build (ok (some cached)) s v w = v
  unless_cached-AllVetted key build (ok none) s v w = w
  unless_cached-AllVetted key build (err x) s v w = v

  materialize_locked-AllVetted :
      (offline : Bool) (registries : RegistrySet) (authority : RegistryConfig) (kernel : String)
      (spec : BuildSpec) (key : String) (s : State W)
      → AllVetted lib read_elf s.cache
      → AllVetted lib read_elf
          (materialize_locked lib files codec read_elf jit net offline registries authority kernel
            spec key s).1.cache
  unfolding materialize_locked
  materialize_locked-AllVetted offline registries authority kernel spec key s vetted =
      unless_cached-AllVetted key
        (obtain_and_commit lib files codec read_elf jit net offline registries authority kernel spec
          key)
        (get_build files key s.cache) s vetted
        (obtain_and_commit-AllVetted offline registries authority kernel spec key s vetted)

  -- Whatever registries answer and whatever is built, and also where it fails, `materialize` leaves a cache
  -- in which every build has a kernel.so that passed the validation with its config, if that held before.
  pub materialize-AllVetted :
      (offline : Bool) (registries : RegistrySet) (authority : RegistryConfig)
      (kernel release_digest : String) (args : Value) (target : TargetSpec) (s : State W)
      → AllVetted lib read_elf s.cache
      → AllVetted lib read_elf
          (materialize lib files codec read_elf jit net offline registries authority kernel
            release_digest args target s).1.cache
  unfolding materialize
  materialize-AllVetted offline registries authority kernel release_digest args target s vetted =
      keyed (spec_key lib spec)
    where
      spec : BuildSpec
      spec = build_spec release_digest args (target_dict target)

      after_key : String → Exec (State W) (String × String)
      after_key key t =
          continue
            (unless_cached lib files codec read_elf jit net key (
              materialize_locked lib files codec read_elf jit net offline registries authority
                kernel spec key))
            (get_build files key t.cache, t)

      keyed : (r : Result String) → AllVetted lib read_elf (continue after_key (r, s)).1.cache
      keyed (ok key) =
          unless_cached-AllVetted key
            (materialize_locked lib files codec read_elf jit net offline registries authority kernel
              spec key)
            (get_build files key s.cache) s vetted
            (materialize_locked-AllVetted offline registries authority kernel spec key s vetted)
      keyed (err x) = vetted
