-- ===== src/Runtime.antt =====
-- runtime.py: finding the digest of a release, and pulling it. The registries are an interface, which
-- the OCI client implements below; materialising a build is not here.
pub mod Cached
pub mod Resolution
pub mod Release
pub mod Materialize
pub mod Keeps
pub mod Sound
use k_dash.Base.{
  ℕ, ◌≡◌, String, ◌<>◌, Bool, true, false, not, ◌&&◌, ◌||◌, Option, none, some, List, [], ◌∷◌, ◌==◌,
  if◌then◌else◌, Result, ok, err, raise, raise_if, raise_python, Error, k_dash_error, python_error,
  ErrorClass, registry_access_failure, artifact_integrity, offline_cache_miss, index_error,
  ◌>>=◌ as ◌>>=ᴿ◌,
}
use k_dash.Base.Exec.{Exec, pure, lift, fail, ◌>>=◌, ◌>>◌, catch}
use k_dash.Base.Text.{starts_with}
use k_dash.Json.{Value, null, str, obj, get_or_null}
use k_dash.External.{Bytes, Libraries}
use k_dash.Model.{RegistryConfig, RegistrySet, primary, secondaries}
use k_dash.Canonical.{digest_bytes}
use k_dash.Artifact.{release_type, equals_text}
use k_dash.Oci.{Http, Client, Session, PulledArtifact, Manifest}
use k_dash.Oci.Methods.{get_manifest as oci_get_manifest, pull as oci_pull}
use k_dash.Cache.{Cache, Files, get_value, get_source, is_null, put_resolution, get_resolution}

-- What the runtime asks of registries; W is the network.
pub record Registries (W : Type 0) : Type 0 where
  pub get_manifest : RegistryConfig → (kernel reference : String) → Exec W Manifest
  pub pull : RegistryConfig → (kernel reference artifact_type : String) → Exec W PulledArtifact

-- `"/".join(part for part in (prefix, kernel) if part)`
abbrev pub join_repository : (prefix kernel : String) → String
join_repository prefix kernel =
    if prefix == "" then kernel else if kernel == "" then prefix else prefix <> ("/" <> kernel)

-- The credentials of a registry: `_resolve_basic_auth` reads them from the configuration, the environment
-- and Docker.
abbrev pub Credentials : Type 0
Credentials = RegistryConfig → Result (Option (String × String))

-- `OCIClient(registry, kernel)`
abbrev pub client_of : Credentials → RegistryConfig → (kernel : String) → Result Client
client_of credentials r kernel = credentials r >>=ᴿ λ auth. ok (record {
  name = r.name;
  url = r.url;
  repository = join_repository r.repository_prefix kernel;
  basic_auth = auth;
})

module _ {W : Type 0} where
  abbrev pub end_session {ℓ} : {A : Type ℓ} → Result A × Session W → Result A × W
  end_session (result, s) = (result, s.world)

  -- One call on a client that is new, and has no token.
  abbrev pub with_client {ℓ} :
      {A : Type ℓ} → Result Client → (Client → Exec (Session W) A) → Exec W A
  with_client (err e) call w = (err e, w)
  with_client (ok client) call w = end_session (call client (record { token = none; world = w }))

  abbrev pub oci_registries : Libraries → Http W → Credentials → Registries W
  oci_registries lib http credentials = record {
    get_manifest = λ r kernel reference.
        with_client (client_of credentials r kernel)
          (λ client. oci_get_manifest lib http client reference);
    pull = λ r kernel reference artifact_type.
        with_client (client_of credentials r kernel)
          (λ client. oci_pull lib http client reference artifact_type);
  }

-- What a process works on: the cache, and the network.
pub record State (W : Type 0) : Type 0 where
  pub cache : Cache
  pub world : W

abbrev pub is_access_failure : Error → Bool
is_access_failure (k_dash_error registry_access_failure message stage) = true
is_access_failure _ = false

-- `try: … except RegistryAccessFailure: …`
abbrev pub on_access_failure {ℓ} :
    {S : Type 0} {A : Type ℓ} → Exec S A → (Error → Exec S A) → Exec S A
on_access_failure m handler = catch m (λ e. if is_access_failure e then handler e else fail e)

-- `version.startswith("dev-")`
abbrev pub is_dev : String → Bool
is_dev version = starts_with version "dev-"

abbrev pub resolution_miss : Error
resolution_miss = k_dash_error offline_cache_miss "release resolution is absent" "offline"

abbrev pub unresolved : Error
unresolved =
    k_dash_error registry_access_failure "no registry can resolve the release" "release-resolution"

-- A digest, which is what the cache holds or what a registry said, and the registry to ask from there on.
abbrev pub Resolved : Type 0
Resolved = Value × RegistryConfig

module _ {W : Type 0} (lib : Libraries) (files : Files) (net : Registries W)
    (kernel version : String) where
  abbrev pub on_world {ℓ} : {A : Type ℓ} → Cache → Result A × W → Result A × State W
  on_world c (result, w) = (result, record { cache = c; world = w })

  abbrev pub ask : RegistryConfig → Exec (State W) Manifest
  ask r s = on_world s.cache (net.get_manifest r kernel ("release-" <> version) s.world)

  abbrev pub keep_cache : State W → Result Cache → Result (Unit {0}) × State W
  keep_cache s (ok c) = (ok tt, record s { cache = c })
  keep_cache s (err e) = (err e, s)

  abbrev pub remember : RegistryConfig → (digest : String) → Exec (State W) (Unit {0})
  remember p digest s = keep_cache s (put_resolution lib p.name kernel version digest s.cache)

  abbrev pub recall : RegistryConfig → Exec (State W) Value
  recall p s = (get_resolution files p.name kernel version s.cache, s)

  -- Asking a registry, and remembering its answer under the primary's name
  unfoldable pub resolve_at : (p r : RegistryConfig) → Exec (State W) Resolved
  resolve_at p r = do manifest ← ask r; remember p manifest.0; pure (str manifest.0, r)

  unfoldable pub try_secondaries : RegistryConfig → List RegistryConfig → Exec (State W) Resolved
  unfolding resolve_at
  try_secondaries p [] = fail unresolved
  try_secondaries p (r ∷ rs) =
      let rest = try_secondaries p rs in on_access_failure (resolve_at p r) (λ _. rest)

  unfoldable pub resolve_online : RegistryConfig → List RegistryConfig → Exec (State W) Resolved
  unfolding resolve_at try_secondaries
  resolve_online p others =
      on_access_failure (resolve_at p p)
        (λ e. if is_dev version then fail e else try_secondaries p others)

  abbrev pub resolve_with :
      (offline : Bool) → RegistryConfig → List RegistryConfig → Value → Exec (State W) Resolved
  resolve_with offline p others cached =
      if offline
      then (if is_null cached then fail resolution_miss else pure (cached, p))
      else if not (is_null cached) && not (is_dev version)
      then pure (cached, p)
      else resolve_online p others

  -- `offline`: K_DASH_OFFLINE is 1.
  unfoldable pub resolve_release : (offline : Bool) → RegistrySet → Exec (State W) Resolved
  unfolding resolve_online
  resolve_release offline registries = do
    p ← lift (primary registries)
    cached ← recall p
    resolve_with offline p (secondaries registries) cached

abbrev pub first_layer : List Bytes → Result Bytes
first_layer [] = raise_python index_error
first_layer (layer ∷ layers) = ok layer

abbrev pub identity_mismatch : Error
identity_mismatch = k_dash_error artifact_integrity "release identity mismatch" "release-artifact"

abbrev pub source_mismatch : Error
source_mismatch =
    k_dash_error artifact_integrity "release source digest mismatch" "release-artifact"

-- `pull_release`, once the artifact is there
unfoldable pub check_release :
    Libraries → (kernel digest : String) → PulledArtifact → Result PulledArtifact
check_release lib kernel digest artifact =
    if not (artifact.digest == digest)
      || not (equals_text kernel (get_or_null "kernel" artifact.config))
    then err identity_mismatch
    else get_source (obj artifact.config) >>=ᴿ λ source. get_value "digest" source >>=ᴿ λ expected.
        first_layer artifact.layers >>=ᴿ λ layer.
        if equals_text (digest_bytes lib layer) expected then ok artifact else err source_mismatch

unfoldable pub pull_release :
    {W : Type 0}
    → Libraries
    → Registries W
    → RegistryConfig
    → (kernel digest : String) → Exec W PulledArtifact
unfolding check_release
pull_release lib net r kernel digest = do
  artifact ← net.pull r kernel digest release_type
  lift (check_release lib kernel digest artifact)
