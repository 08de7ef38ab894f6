-- ===== src/Oci/Methods.antt =====
-- The methods of OCIClient, as calls that use a session.
use k_dash.Base.{
  String, ◌<>◌, Bool, true, false, not, ◌&&◌, ◌||◌, Option, none, some, List, [], ◌∷◌, nat_eq,
  if◌then◌else◌, Result, ok, err, raise_if, Error,
}
use k_dash.Base.Exec.{Exec, pure, lift, ◌>>=◌, ◌>>◌}
use k_dash.Base.Text.{strip_left, is_slash}
use k_dash.Json.{Items, nil, cons, Fields}
use k_dash.External.{Bytes, Libraries}
use k_dash.Canonical.{digest_bytes}
use k_dash.Artifact.{parse_json_blob, verify_descriptor}
use k_dash.Oci.{
  get_method, head_method, post_method, put_method, Method, Auth, basic, bearer, Request, Response,
  Http, Client, Session, PulledArtifact, access_failure, is_success, lookup_text, token_of,
  nonempty, Manifest, read_manifest, read_blob, digest_of, layer_fields, descriptors, or_text,
  or_empty_text, required_realm, token_params, success_or,
}

module _ {W : Type 0} (lib : Libraries) (http : Http W) (client : Client) where
  abbrev pub Call {ℓ} : Type ℓ → Type ℓ
  Call A = Exec (Session W) A

  abbrev pub send : (failure : Error) → Request → Call Response
  send failure request s =
      let (response, w) = http.send request s.world in
      elim response [
        | none ↦ (err failure, record s { world = w })
        | some r ↦ (ok r, record s { world = w })
      ]

  -- An empty token counts as none when a request starts.
  abbrev pub auth_of : Option String → Auth
  auth_of none = basic client.basic_auth
  auth_of (some t) = bearer t

  abbrev pub set_token : String → Call (Unit {0})
  set_token t s = (ok tt, record s { token = some t })

  unfoldable pub authorize : (challenge : String) → Call (Unit {0})
  authorize challenge = do
    let vs = http.challenge challenge
    realm ← lift (required_realm (nonempty (lookup_text "realm" vs)))
    response ← send (access_failure "token request failed" "registry-auth") (record {
      method = get_method;
      url = http.token_url realm (token_params vs);
      auth = basic client.basic_auth;
      body = none;
    })
    lift (success_or "registry authentication rejected" response)
    token_data ← lift (http.json response.content)
    token ← lift (token_of token_data)
    set_token token

  abbrev pub gets_token : Call (Option String)
  gets_token s = (ok s.token, s)

  abbrev pub is_challenge : Response → Bool
  is_challenge r = nat_eq r.status_code 401 && http.offers_bearer (or_empty_text r.www_authenticate)

  abbrev pub build_request : Method → (url : String) → (body : Option Bytes) → Auth → Request
  build_request method url body auth = record {
    method = method;
    url = url;
    auth = auth;
    body = body;
  }

  -- What `_request` does with the first response.
  abbrev pub answer : Method → (url : String) → (body : Option Bytes) → Response → Call Response
  answer method url body r =
      if is_challenge r
      then (do
        authorize (or_empty_text r.www_authenticate)
        token ← gets_token
        send (access_failure "authorized registry request failed" "registry-access")
            (build_request method url body (auth_of token)))
      else pure r

  -- `_request`
  unfoldable pub request : Method → (url : String) → (body : Option Bytes) → Call Response
  unfolding authorize
  request method url body = do
    token ← gets_token
    response ←
        send (access_failure "registry request failed" "registry-access")
          (build_request method url body (auth_of (nonempty token)))
    answer method url body response

  -- `_url`
  abbrev pub repository_url : String → String
  repository_url suffix =
      client.url <> ("/v2/" <> (client.repository <> ("/" <> strip_left is_slash suffix)))

  unfoldable pub get_manifest : (reference : String) → Call Manifest
  unfolding request read_manifest
  get_manifest reference = do
    response ← request get_method (repository_url ("manifests/" <> http.quote reference)) none
    lift (read_manifest lib response)

  unfoldable pub get_blob : (digest : String) → Call Bytes
  unfolding request read_blob
  get_blob digest = do
    response ← request get_method (repository_url ("blobs/" <> http.quote digest)) none
    lift (read_blob lib digest response)

  -- A blob by its descriptor, with the descriptor verified
  unfoldable pub get_described : (stage : String) → Fields → Call Bytes
  unfolding get_blob
  get_described stage d = do
    digest ← lift (digest_of d)
    payload ← get_blob digest
    lift (verify_descriptor lib stage d payload)
    pure payload

  unfoldable pub get_layers : Items → Call (List Bytes)
  unfolding get_described
  get_layers nil = pure []
  get_layers (cons v vs) = do
    d ← lift (layer_fields v)
    payload ← get_described "registry-layer" d
    rest ← get_layers vs
    pure (payload ∷ rest)

  unfoldable pub pull : (reference artifact_type : String) → Call PulledArtifact
  unfolding get_manifest get_described get_layers
  pull reference artifact_type = do
    (digest, manifest_bytes, manifest) ← get_manifest reference
    (descriptor, layers) ← lift (descriptors artifact_type manifest)
    config_bytes ← get_described "registry-config" descriptor
    payloads ← get_layers layers
    config ← lift (parse_json_blob lib "registry-config" config_bytes)
    pure (record {
      digest = digest;
      manifest = manifest;
      manifest_bytes = manifest_bytes;
      config = config;
      config_bytes = config_bytes;
      layers = payloads;
    })

  -- `_blob_exists`
  abbrev pub read_exists : Response → Result Bool
  read_exists r =
      if nat_eq r.status_code 404
      then ok false
      else if not (is_success r.status_code)
      then err (access_failure "blob existence check failed" "registry-access")
      else ok true

  abbrev pub is_created : Response → Bool
  is_created r = nat_eq r.status_code 201 || nat_eq r.status_code 202

  abbrev pub upload_blob : (digest : String) → Bytes → Call String
  upload_blob digest payload = do
    started ← request post_method (repository_url "blobs/uploads/") none
    lift (
        raise_if (not (is_created started))
          (access_failure "blob upload could not start" "registry-push"))
    uploaded ←
        request put_method (http.upload_url client.url (or_empty_text started.location) digest)
          (some payload)
    lift
        (raise_if (not (is_created uploaded)) (access_failure "blob upload failed" "registry-push"))
    pure digest

  unfoldable pub push_blob : Bytes → Call String
  unfolding request
  push_blob payload = do
    let digest = digest_bytes lib payload
    response ← request head_method (repository_url ("blobs/" <> http.quote digest)) none
    there ← lift (read_exists response)
    if there then pure digest else upload_blob digest payload

  unfoldable pub push_manifest : (reference : String) → Bytes → Call String
  unfolding request
  push_manifest reference manifest_bytes = do
    response ←
        request put_method (repository_url ("manifests/" <> http.quote reference))
          (some manifest_bytes)
    lift (
        raise_if (not (is_created response))
          (access_failure "manifest upload failed" "registry-push"))
    pure (or_text (digest_bytes lib manifest_bytes) response.docker_content_digest)

  unfoldable pub push_blobs : List Bytes → Call (Unit {0})
  unfolding push_blob
  push_blobs [] = pure tt
  push_blobs (layer ∷ layers) = do push_blob layer >>= λ _. push_blobs layers

  unfoldable pub push :
      (reference : String) → (config : Bytes) → List Bytes → (manifest : Bytes) → Call String
  unfolding push_blob push_blobs push_manifest
  push reference config_bytes layers manifest_bytes =
      push_blob config_bytes >>= λ _. push_blobs layers >> push_manifest reference manifest_bytes
