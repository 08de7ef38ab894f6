-- ===== src/Api/Vetted.antt =====
-- `get` keeps the cache free of builds that were not validated.
use k_dash.Base.{◌≡◌, refl, subst, String, Option, none, some, List, All, Result, ok, err}
use k_dash.Base.Exec.{lift, fail}
use k_dash.Json.{Value, obj, Fields}
use k_dash.External.{Bytes, Libraries}
use k_dash.Model.{RegistryConfig}
use k_dash.Canonical.{normalize_args}
use k_dash.Config.{load_registry_set}
use k_dash.Target.{detect_target}
use k_dash.Artifact.{Codec}
use k_dash.Project.Names.{validate_kernel_name}
use k_dash.Cache.{BuildDir, Cache, Files, CachedRelease, get_release, commit_release}
use k_dash.Validation.{ReadElf}
use k_dash.Runtime.{Registries, State, first_layer, resolve_release, pull_release}
use k_dash.Runtime.Materialize.{LocalJit, on_network, read_cache, write_cache, end_commit}
use k_dash.Runtime.Materialize.Vetted.{IsVetted, AllVetted, materialize-AllVetted}
use k_dash.Api.{
  Surroundings, version_of, args_of, digest_text, args_schema, release_miss, pull_and_commit,
  config_of, get,
}
use k_dash.Runtime.Keeps.{Keeps, bind-Keeps, choose-Keeps}
use k_dash.Api.Builds.{SameDirectories, commit_release-builds, resolve_release-Keeps}

module _ {W : Type 0} (lib : Libraries) (files : Files) (codec : Codec) (read_elf : ReadElf)
    (jit : LocalJit) (net : Registries W) (around : Surroundings) where
  abbrev Vetted : Cache → Type 0
  Vetted = AllVetted lib read_elf

  same_builds : (c d : Cache) → c.builds ≡ d.builds → Vetted c → Vetted d
  same_builds c d e v =
      subst
        (λ (builds : List (String × BuildDir)).
          All (λ (entry : String × BuildDir). IsVetted lib read_elf entry.1) builds)
        e v

  same : SameDirectories Vetted
  same c d e f = same_builds c d e

  commit-Keeps :
      (digest : String) (config : Fields) (layer : Bytes)
      → Keeps Vetted (write_cache {W = W} (commit_release files lib codec digest config layer))
  commit-Keeps digest config layer s v =
      kept (commit_release files lib codec digest config layer s.cache) refl
    where
      kept :
          (r : Result Cache)
          → commit_release files lib codec digest config layer s.cache ≡ r
          → Vetted (end_commit s r).1.cache
      kept (ok c) e =
          same_builds s.cache c
            (commit_release-builds files lib codec digest config layer s.cache e) v
      kept (err x) e = v

  pull_and_commit-Keeps :
      (authority : RegistryConfig) (kernel digest : String)
      → Keeps Vetted
          (pull_and_commit lib files codec read_elf jit net around authority kernel digest)
  pull_and_commit-Keeps authority kernel digest =
      bind-Keeps Vetted (on_network (pull_release lib net authority kernel digest)) _ (λ s v. v)
        λ release.
          bind-Keeps Vetted (lift (first_layer release.layers)) _ (λ s v. v)
            λ layer.
              bind-Keeps Vetted
                (write_cache (commit_release files lib codec digest release.config layer)) _
                (commit-Keeps digest release.config layer) λ _ s v. v

  config_of-Keeps :
      (authority : RegistryConfig) (kernel digest : String) (o : Option CachedRelease)
      → Keeps Vetted (config_of lib files codec read_elf jit net around authority kernel digest o)
  config_of-Keeps authority kernel digest (some (config, archive, source)) = λ s v. v
  config_of-Keeps authority kernel digest none =
      choose-Keeps Vetted around.offline (fail release_miss)
        (pull_and_commit lib files codec read_elf jit net around authority kernel digest) (λ s v. v)
        (pull_and_commit-Keeps authority kernel digest)

  -- Whatever it is called with, and wherever it fails, `get` leaves a cache in which every build has a
  -- kernel.so that passed the validation with its config, if that held before.
  pub get-AllVetted :
      (kernel version jit_args : Value) (s : State W)
      → AllVetted lib read_elf s.cache
      → AllVetted lib read_elf
          (get lib files codec read_elf jit net around kernel version jit_args s).1.cache
  unfolding get
  get-AllVetted kernel version jit_args =
      bind-Keeps Vetted (lift (validate_kernel_name kernel)) _ (λ s v. v)
        λ name.
          bind-Keeps Vetted (lift (version_of version)) _ (λ s v. v)
            λ wanted.
              bind-Keeps Vetted (lift (args_of jit_args)) _ (λ s v. v)
                λ raw.
                  bind-Keeps Vetted (lift (load_registry_set around.urlparse around.config_file)) _
                    (λ s v. v)
                    λ registries.
                      bind-Keeps Vetted
                        (resolve_release lib files net name wanted around.offline registries) _
                        (resolve_release-Keeps Vetted same lib files net name wanted around.offline
                          registries)
                        λ resolved.
                          bind-Keeps Vetted (lift (digest_text resolved.0)) _ (λ s v. v)
                            λ digest.
                              bind-Keeps Vetted (read_cache (get_release files digest)) _ (λ s v. v)
                                λ cached.
                                  bind-Keeps Vetted
                                    (config_of lib files codec read_elf jit net around resolved.1
                                      name digest cached)
                                    _ (config_of-Keeps resolved.1 name digest cached)
                                    λ config.
                                      bind-Keeps Vetted (lift (args_schema config)) _ (λ s v. v)
                                        λ schema.
                                          bind-Keeps Vetted
                                            (lift (normalize_args lib (obj raw) schema)) _
                                            (λ s v. v)
                                            λ args.
                                              bind-Keeps Vetted (lift (detect_target around.host)) _
                                                (λ s v. v)
                                                λ target.
                                                  materialize-AllVetted lib files codec read_elf jit
                                                    net around.offline registries resolved.1 name
                                                    digest args target
