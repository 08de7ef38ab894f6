-- ===== src/Oci/Credentials.antt =====
-- `_resolve_basic_auth` of oci.py: the user and the password for a registry, from the configuration, the
-- environment, Docker's configuration or a helper of Docker.
use k_dash.Base.{
  String, ◌<>◌, Char, code, Option, none, some, List, [], ◌∷◌, nat_eq, if◌then◌else◌, Result, ok,
  err, raise_python, ◌>>=◌, Error, attribute_error, type_error, value_error, os_error,
}
use k_dash.Json.{Value, null, str, obj, end, Fields, get_field, get_or_null}
use k_dash.Model.{RegistryConfig}
use k_dash.Config.{get_or}
use k_dash.Artifact.{equals_text}
use k_dash.Oci.{access_failure, is_truthy, or_value}

-- What reading and loading a JSON file gives
pub data JsonFile : Type 0 where
  -- an OSError
  unreadable : JsonFile
  -- a UnicodeDecodeError
  undecodable : JsonFile
  -- a JSONDecodeError
  malformed : JsonFile
  loaded : Value → JsonFile

-- What running a helper gives
pub data HelperRun : Type 0 where
  -- a SubprocessError
  failed : HelperRun
  -- an OSError
  not_run : HelperRun
  -- an output that is no JSON
  garbled : HelperRun
  printed : Value → HelperRun

-- os.environ, the home directory, files, helpers and base64
pub record Machine : Type 0 where
  pub environ : String → Option String
  pub expand_user : String → String
  pub json_file : (path : String) → JsonFile
  -- `urlparse(url).netloc`
  pub netloc : String → String
  -- `shutil.which`
  pub which : String → Option String
  -- `[executable, "get"]` with this input
  pub run_helper : (executable input : String) → HelperRun
  -- `base64.b64decode(text).decode()`, `none` where it raises a ValueError
  pub decode_base64 : String → Option String
  -- `str()` of what is no text
  pub show : Value → String

abbrev pub auth_error : String → Error
auth_error message = access_failure message "registry-auth"

abbrev pub env_value : Option String → Value
env_value none = null
env_value (some s) = str s

-- `value.get(…)`
abbrev pub dict_of : Value → Result Fields
dict_of (obj fs) = ok fs
dict_of _ = raise_python attribute_error

-- `isinstance(username, str)` and `isinstance(password, str)`
abbrev pub both_texts : (username password : Value) → Error → Result (String × String)
both_texts (str u) (str p) e = ok (u, p)
both_texts _ _ e = err e

abbrev pub before_colon : Char → Option (String × String) → Option (String × String)
before_colon c none = none
before_colon c (some (user, rest)) = some (String.◌∷◌ c user, rest)

-- `split(":", 1)` into two parts
unfoldable pub split_colon : String → Option (String × String)
split_colon String.[] = none
split_colon (String.◌∷◌ c s) =
    let later = split_colon s in if nat_eq (code c) b':' then some ("", s) else before_colon c later

module _ (machine : Machine) where
  abbrev pub show_text : Value → String
  show_text (str s) = s
  show_text v = machine.show v

  -- `auth.get(key) or os.environ.get(str(auth.get(key_env, "")))`
  abbrev pub configured : (key key_env : String) → Fields → Value
  configured key key_env auth =
      or_value (get_or_null key auth)
        (env_value (machine.environ (show_text (get_or key_env (str "") auth))))

  abbrev pub basic_credentials : Fields → Result (String × String)
  basic_credentials auth =
      both_texts (configured "username" "username_env" auth)
        (configured "password" "password_env" auth) (auth_error "basic credentials are incomplete")

  abbrev pub docker_directory : String
  docker_directory =
      let set = env_value (machine.environ "DOCKER_CONFIG") in
      machine.expand_user (show_text (or_value set (str "~/.docker")))

  abbrev pub path_text : Value → Result String
  path_text (str path) = ok (machine.expand_user path)
  path_text _ = raise_python type_error

  abbrev pub docker_config : JsonFile → Result Value
  docker_config unreadable = err (auth_error "Docker credential config cannot be read")
  docker_config malformed = err (auth_error "Docker credential config cannot be read")
  docker_config undecodable = raise_python value_error
  docker_config (loaded v) = ok v

  abbrev pub helper_failed : Error
  helper_failed = auth_error "Docker credential helper failed"

  -- `credential[key]`
  abbrev pub credential_of : (key : String) → Value → Result Value
  credential_of key (obj fs) = elim (get_field key fs) [ none ↦ err helper_failed | some v ↦ ok v ]
  credential_of key _ = raise_python type_error

  abbrev pub helper_output : HelperRun → Result Value
  helper_output failed = err helper_failed
  helper_output garbled = err helper_failed
  helper_output not_run = raise_python os_error
  helper_output (printed v) = ok v

  abbrev pub found_executable : Option String → Result String
  found_executable none = err (auth_error "Docker credential helper is unavailable")
  found_executable (some path) = ok path

  unfoldable pub ask_helper : (helper : Value) → (host : String) → Result (String × String)
  ask_helper helper host = do
    executable ← found_executable (machine.which ("docker-credential-" <> show_text helper))
    credential ← helper_output (machine.run_helper executable (host <> "\n"))
    username ← credential_of "Username" credential
    password ← credential_of "Secret" credential
    both_texts username password
        (auth_error "Docker credential helper returned invalid credentials")

  -- The entry under one of the keys of a host, if it is there and not empty
  abbrev pub entry_auth : Option Value → Value
  entry_auth (some (obj fs)) = get_or_null "auth" fs
  entry_auth _ = null

  abbrev pub find_encoded : Fields → List String → Value
  find_encoded auths [] = null
  find_encoded auths (key ∷ keys) =
      let v = entry_auth (get_field key auths) in if is_truthy v then v else find_encoded auths keys

  abbrev pub invalid_entry : Error
  invalid_entry = auth_error "invalid Docker auth entry"

  abbrev pub decode_entry : Value → Result (String × String)
  decode_entry (str encoded) = elim (machine.decode_base64 encoded) [
    | none ↦ err invalid_entry
    | some text ↦ elim (split_colon text) [ none ↦ err invalid_entry | some pair ↦ ok pair ]
  ]
  decode_entry _ = raise_python type_error

  abbrev pub stored : Fields → (host : String) → Result (String × String)
  stored auths host =
      let encoded = find_encoded auths (host ∷ ("https://" <> host) ∷ ("http://" <> host) ∷ []) in
      if is_truthy encoded
      then decode_entry encoded
      else err (auth_error "Docker credentials are missing; run docker login for this registry")

  unfoldable pub docker_credentials : Fields → (host : String) → Result (String × String)
  unfolding ask_helper split_colon
  docker_credentials auth host = do
    path ← path_text (get_or "config_path" (str (docker_directory <> "/config.json")) auth)
    content ← docker_config (machine.json_file path)
    config ← dict_of content
    helpers ← dict_of (or_value (get_or_null "credHelpers" config) (obj end))
    let helper = or_value (get_or_null host helpers) (get_or_null "credsStore" config)
    (if is_truthy helper
        then ask_helper helper host
        else dict_of (get_or "auths" (obj end) config) >>= λ auths. stored auths host)

  unfoldable pub resolve_basic_auth : RegistryConfig → Result (Option (String × String))
  unfolding docker_credentials
  resolve_basic_auth config = do
    auth ← dict_of config.auth
    (if equals_text "anonymous" (get_or_null "type" auth)
        then ok none
        else if equals_text "basic" (get_or_null "type" auth)
        then (basic_credentials auth >>= λ pair. ok (some pair))
        else docker_credentials auth (machine.netloc config.url) >>= λ pair. ok (some pair))
