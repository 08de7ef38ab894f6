-- ===== src/Oci.antt =====
-- oci.py: the client of one repository in one registry. The server and `requests` are a parameter:
-- what a request returns depends on a world that the request may change.
pub mod Methods
pub mod Pull
pub mod Content
pub mod Credentials
use k_dash.Base.{
  ℕ, zero, suc, ◌≡◌, ◌/◌, String, ◌<>◌, Bool, true, false, not, ◌&&◌, ◌||◌, Option, none, some,
  List, [], ◌∷◌, ◌++◌, ◌==◌, nat_eq, if◌then◌else◌, Result, ok, err, raise, raise_if, raise_python,
  Error, k_dash_error, artifact_integrity, artifact_not_found, registry_access_failure, type_error,
  key_error, attribute_error, ◌>>=◌ as ◌>>=ᴿ◌,
}
use k_dash.Base.Exec.{Exec, pure, lift, fail, ◌>>=◌, ◌>>◌, continue}
use k_dash.Base.Text.{strip_left, is_slash}
use k_dash.Json.{
  Value, null, bool, int, float, str, arr, obj, other, Items, nil, cons, Fields, end, field, odd,
  values, get_field, get_or_null,
}
use k_dash.Json.Numbers.{is_zero, is_float_zero}
use k_dash.External.{Bytes, Libraries}
use k_dash.Canonical.{digest_bytes}
use k_dash.Artifact.{oci_manifest, parse_json_blob, verify_descriptor, equals_text}

pub data Method : Type 0 where
  get_method : Method
  head_method : Method
  post_method : Method
  put_method : Method

-- How a request is authorised.
pub data Auth : Type 0 where
  basic : Option (String × String) → Auth
  bearer : String → Auth

pub record Request : Type 0 where
  pub method : Method
  pub url : String
  pub auth : Auth
  pub body : Option Bytes

pub record Response : Type 0 where
  pub status_code : ℕ
  pub content : Bytes
  -- the headers Docker-Content-Digest, WWW-Authenticate and Location
  pub docker_content_digest : Option String
  pub www_authenticate : Option String
  pub location : Option String

-- `requests` over a network in some state, and the library functions that build URLs.
pub record Http (W : Type 0) : Type 0 where
  -- `none` where a RequestException is raised
  pub send : Request → W → Option Response × W
  -- `"bearer " in header.lower()`
  pub offers_bearer : String → Bool
  -- the values of a challenge, by `re.findall`
  pub challenge : String → List (String × String)
  -- the URL of a token request, from the realm and the parameters
  pub token_url : String → List (String × String) → String
  -- `response.json()`
  pub json : Bytes → Result Value
  -- `quote(text, safe=":@")`
  pub quote : String → String
  -- `urljoin(base, location)` and the separator before the digest
  pub upload_url : (base location digest : String) → String

-- The parts of an OCIClient that do not change.
pub record Client : Type 0 where
  pub name : String
  pub url : String
  pub repository : String
  pub basic_auth : Option (String × String)

-- A client in use: its bearer token, and the network.
pub record Session (W : Type 0) : Type 0 where
  pub token : Option String
  pub world : W

pub record PulledArtifact : Type 0 where
  pub digest : String
  pub manifest : Fields
  pub manifest_bytes : Bytes
  pub config : Fields
  pub config_bytes : Bytes
  pub layers : List Bytes

abbrev pub access_failure : (message stage : String) → Error
access_failure message stage = k_dash_error registry_access_failure message stage

-- `status // 100 == 2`
abbrev pub is_success : ℕ → Bool
is_success status = nat_eq (status / 100) 2

abbrev pub lookup_text : String → List (String × String) → Option String
lookup_text k [] = none
lookup_text k ((j, v) ∷ rest) = elim (lookup_text k rest) [
  | some w ↦ some w
  | none ↦ if j == k then some v else none
]

-- `a or b`
abbrev pub is_truthy : Value → Bool
is_truthy null = false
is_truthy (bool b) = b
is_truthy (int n) = not (is_zero n)
is_truthy (float x) = not (is_float_zero x)
is_truthy (str s) = not (s == "")
is_truthy (arr nil) = false
is_truthy (arr (cons v vs)) = true
is_truthy (obj end) = false
is_truthy (obj (field k v fs)) = true
is_truthy (obj (odd v fs)) = true
is_truthy other = true

abbrev pub or_value : Value → Value → Value
or_value a b = if is_truthy a then a else b

abbrev pub text_token : Value → Result String
text_token (str t) = ok t
text_token _ = err (access_failure "token response is incomplete" "registry-auth")

-- `token_data.get("token") or token_data.get("access_token")`
abbrev pub token_of : Value → Result String
token_of (obj fs) = text_token (or_value (get_or_null "token" fs) (get_or_null "access_token" fs))
token_of _ = raise_python attribute_error

abbrev pub nonempty : Option String → Option String
nonempty none = none
nonempty (some s) = if s == "" then none else some s

-- `advertised and advertised != computed`
abbrev pub check_advertised : Option String → (computed : String) → Result String
check_advertised advertised computed = elim (nonempty advertised) [
  | none ↦ ok computed
  | some d ↦
      if d == computed
      then ok d
      else raise artifact_integrity "manifest digest mismatch" "registry-manifest"
]

-- A digest, the bytes of the manifest and the manifest.
abbrev pub Manifest : Type 0
Manifest = String × Bytes × Fields

module _ (lib : Libraries) where
  -- `get_manifest`, once the response is there
  unfoldable pub read_manifest : Response → Result Manifest
  read_manifest r =
      if nat_eq r.status_code 404
      then raise artifact_not_found "artifact does not exist" "registry-manifest"
      else if not (is_success r.status_code)
      then err (access_failure "manifest request was rejected" "registry-access")
      else check_advertised r.docker_content_digest (digest_bytes lib r.content) >>=ᴿ λ digest.
          parse_json_blob lib "registry-manifest" r.content >>=ᴿ λ manifest.
          ok (digest, r.content, manifest)

  -- `get_blob`, once the response is there
  unfoldable pub read_blob : (digest : String) → Response → Result Bytes
  read_blob digest r =
      if nat_eq r.status_code 404
      then raise artifact_integrity "referenced blob is missing" "registry-blob"
      else if not (is_success r.status_code)
      then err (access_failure "blob request was rejected" "registry-access")
      else if digest_bytes lib r.content == digest
      then ok r.content
      else raise artifact_integrity "blob digest mismatch" "registry-blob"

-- `descriptor["digest"]`, which `quote` wants to be a text
abbrev pub digest_of : Fields → Result String
digest_of d = elim (get_field "digest" d) [
  | none ↦ raise_python key_error
  | some (str s) ↦ ok s
  | some _ ↦ raise_python type_error
]

-- `layer_descriptor["digest"]` of what is no dict
abbrev pub layer_fields : Value → Result Fields
layer_fields (obj fs) = ok fs
layer_fields _ = raise_python type_error

abbrev pub descriptor_pair : Value → Value → Result (Fields × Items)
descriptor_pair (obj d) (arr (cons v vs)) = ok (d, cons v vs)
descriptor_pair _ _ =
    raise artifact_integrity "artifact descriptors are incomplete" "registry-manifest"

-- The descriptors of a manifest: the config's, and those of the layers, which are not none.
abbrev pub descriptors : (artifact_type : String) → Fields → Result (Fields × Items)
descriptors artifact_type m =
    if not (equals_text oci_manifest (get_or_null "mediaType" m))
      || not (equals_text artifact_type (get_or_null "artifactType" m))
    then raise artifact_integrity "unexpected artifact type" "registry-manifest"
    else descriptor_pair (get_or_null "config" m) (get_or_null "layers" m)

-- `headers.get(name, default)`
abbrev pub or_text : String → Option String → String
or_text d none = d
or_text d (some s) = s

abbrev pub or_empty_text : Option String → String
or_empty_text o = or_text "" o

abbrev pub required_realm : Option String → Result String
required_realm none = err (access_failure "invalid bearer challenge" "registry-auth")
required_realm (some r) = ok r

abbrev pub token_param : List (String × String) → String → List (String × String)
token_param vs k = elim (lookup_text k vs) [ none ↦ [] | some v ↦ (k, v) ∷ [] ]

-- `{key: values[key] for key in ("service", "scope") if key in values}`
abbrev pub token_params : List (String × String) → List (String × String)
token_params vs = token_param vs "service" ++ token_param vs "scope"

abbrev pub success_or : (message : String) → Response → Result (Unit {0})
success_or message r =
    raise_if (not (is_success r.status_code)) (access_failure message "registry-auth")
