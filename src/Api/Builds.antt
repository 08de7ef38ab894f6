-- ===== src/Api/Builds.antt =====
-- What resolving and pulling a release leaves of the builds in the cache.
use k_dash.Base.{
  ◌≡◌, refl, ap, String, Bool, true, false, List, [], ◌∷◌, Result, ok, err, if◌then◌else◌, Error,
  inl, inr, Result-cases, ok_injective, on_ok, Bool-cases, Option-cases, arith,
}
use k_dash.Base.Exec.{lift, fail}
use k_dash.Json.{Value, obj, str, Fields, field, end}
use k_dash.External.{Bytes, Libraries}
use k_dash.Model.{RegistryConfig, RegistrySet, primary, secondaries}
use k_dash.Canonical.{canonical_json}
use k_dash.Artifact.{Codec}
use k_dash.Cache.{
  Cache, Files, is_null, ReleaseDir, dir_name, find_dir, stage_release, place_release,
  commit_release, put_resolution,
}
use k_dash.Runtime.Keeps.{Keeps, bind-Keeps, catch-Keeps, choose-Keeps}
use k_dash.Runtime.{
  Registries, ask, remember, recall, keep_cache, is_dev, resolve_at, try_secondaries,
  resolve_online, resolve_with, resolve_release,
}
use k_dash.Runtime.Materialize.{}

-- A property that no resolution decides
abbrev pub SameDirectories : (Cache → Type 0) → Type 0
SameDirectories I = (c d : Cache) → c.builds ≡ d.builds → c.releases ≡ d.releases → I c → I d

put_resolution-directories :
    (lib : Libraries) (registry kernel version digest : String) (c : Cache) {d : Cache}
    → put_resolution lib registry kernel version digest c ≡ ok d
    → (c.builds ≡ d.builds) × (c.releases ≡ d.releases)
unfolding put_resolution
put_resolution-directories lib registry kernel version digest c h =
    on_ok (canonical_json lib (obj (field "release_digest" (str digest) end))) _ h λ bytes _ e. (
      ap (λ (x : Cache). x.builds) (ok_injective e),
      ap (λ (x : Cache). x.releases) (ok_injective e),
    )

place_release-builds :
    (files : Files) (digest : String) (dir : ReleaseDir) (c : Cache) {d : Cache}
    → place_release files digest dir c ≡ ok d
    → c.builds ≡ d.builds
unfolding place_release
place_release-builds files digest dir c {d} h =
    elim (Option-cases (find_dir (dir_name digest) c.releases)) [
      | inl e ↦
          let placed : record c { releases = (dir_name digest, dir) ∷ c.releases } ≡ d =
            ground arith in
          ap (λ (x : Cache). x.builds) placed
      | inr (there, e) ↦ elim (Bool-cases files.reports_exists) [
        | inl t ↦ let same : c ≡ d = ground arith in ap (λ (x : Cache). x.builds) same
        | inr f ↦ absurd (ground arith)
      ]
    ]

pub commit_release-builds :
    (files : Files) (lib : Libraries) (codec : Codec) (digest : String) (config : Fields)
    (archive : Bytes) (c : Cache) {d : Cache}
    → commit_release files lib codec digest config archive c ≡ ok d
    → c.builds ≡ d.builds
unfolding commit_release
commit_release-builds files lib codec digest config archive c {d} h =
    elim (Option-cases (find_dir (dir_name digest) c.releases)) [
      | inl e ↦ elim (Result-cases (stage_release files lib codec config archive)) [
        | inl (dir, p) ↦
            let placed : place_release files digest dir c ≡ ok d = ground arith in
            place_release-builds files digest dir c placed
        | inr (x, p) ↦ absurd (ground arith)
      ]
      | inr (there, e) ↦ let same : c ≡ d = ground arith in ap (λ (x : Cache). x.builds) same
    ]

module _ {W : Type 0} (I : Cache → Type 0) (same : SameDirectories I) (lib : Libraries)
    (files : Files) (net : Registries W) (kernel version : String) where
  remember-Keeps :
      (p : RegistryConfig) (digest : String)
      → Keeps I (remember lib files net kernel version p digest)
  remember-Keeps p digest s i = kept (put_resolution lib p.name kernel version digest s.cache) refl
    where
      kept :
          (r : Result Cache)
          → put_resolution lib p.name kernel version digest s.cache ≡ r
          → I (keep_cache lib files net kernel version s r).1.cache
      kept (ok c) e =
          let (builds, releases) =
            put_resolution-directories lib p.name kernel version digest s.cache e in
          same s.cache c builds releases i
      kept (err x) e = i

  resolve_at-Keeps : (p r : RegistryConfig) → Keeps I (resolve_at lib files net kernel version p r)
  unfolding resolve_at
  resolve_at-Keeps p r =
      bind-Keeps I (ask lib files net kernel version r) _ (λ s i. i)
        λ manifest.
          bind-Keeps I (remember lib files net kernel version p manifest.0) _
            (remember-Keeps p manifest.0) λ _ s i. i

  try_secondaries-Keeps :
      (p : RegistryConfig) (rs : List RegistryConfig)
      → Keeps I (try_secondaries lib files net kernel version p rs)
  unfolding try_secondaries
  try_secondaries-Keeps p [] = λ s i. i
  try_secondaries-Keeps p (r ∷ rs) =
      catch-Keeps I (resolve_at lib files net kernel version p r) _ (resolve_at-Keeps p r)
        λ _. try_secondaries-Keeps p rs

  secondaries-Keeps :
      (b : Bool) (e : Error) (p : RegistryConfig) (rs : List RegistryConfig)
      → Keeps I (if b then fail e else try_secondaries lib files net kernel version p rs)
  secondaries-Keeps true e p rs = λ s i. i
  secondaries-Keeps false e p rs = try_secondaries-Keeps p rs

  resolve_online-Keeps :
      (p : RegistryConfig) (rs : List RegistryConfig)
      → Keeps I (resolve_online lib files net kernel version p rs)
  unfolding resolve_online
  resolve_online-Keeps p rs =
      catch-Keeps I (resolve_at lib files net kernel version p p) _ (resolve_at-Keeps p p)
        λ e. secondaries-Keeps (is_dev version) e p rs

  resolve_with-Keeps :
      (offline : Bool) (p : RegistryConfig) (rs : List RegistryConfig) (cached : Value)
      → Keeps I (resolve_with lib files net kernel version offline p rs cached)
  resolve_with-Keeps true p rs cached = choose-Keeps I (is_null cached) _ _ (λ s i. i) (λ s i. i)
  resolve_with-Keeps false p rs cached = choose-Keeps I _ _ _ (λ s i. i) (resolve_online-Keeps p rs)

  pub resolve_release-Keeps :
      (offline : Bool) (registries : RegistrySet)
      → Keeps I (resolve_release lib files net kernel version offline registries)
  unfolding resolve_release
  resolve_release-Keeps offline registries =
      bind-Keeps I (lift (primary registries)) _ (λ s i. i)
        λ p.
          bind-Keeps I (recall lib files net kernel version p) _ (λ s i. i)
            λ cached. resolve_with-Keeps offline p (secondaries registries) cached
