-- ===== src/Config.antt =====
-- config.py: the registry configuration. yaml.safe_load and urllib.parse.urlparse are parameters.
pub mod Valid
use k_dash.Base.{
  ℕ, zero, suc, ◌+◌, ◌≡◌, String, ◌<>◌, Bool, true, false, not, ◌&&◌, ◌||◌, Option, none, some,
  List, [], ◌∷◌, ◌++◌, ◌==◌, nat_eq, contains, if◌then◌else◌, Result, ok, err, raise, raise_if,
  raise_python, ◌>>=◌, ◌>>◌, Error, k_dash_error, contract, registry_config_not_found, type_error,
}
use k_dash.Base.Text.{strip, strip_right, is_slash}
use k_dash.Base.Decimal.{show}
use k_dash.Json.{
  Value, null, bool, int, float, str, arr, obj, other, Items, nil, cons, Fields, end, field, odd,
  get_field, get_or_null, is_dict, is_nonempty_str,
}
use k_dash.Json.Numbers.{pos, negsuc, is_one}
use k_dash.Model.{RegistryConfig, RegistrySet}

-- What the program reads of `urlparse(url)`.
pub record Url : Type 0 where
  pub scheme : String
  pub netloc : String
  pub path : String

-- `set(value) - allowed` is empty.
abbrev pub only_keys : List String → Fields → Bool
only_keys allowed end = true
only_keys allowed (field k v fs) = contains allowed k && only_keys allowed fs
only_keys allowed (odd v fs) = false

-- `_expect_keys`
abbrev pub expect_keys : Fields → List String → (stage : String) → Result (Unit {0})
expect_keys fs allowed stage =
    raise_if (not (only_keys allowed fs))
      (k_dash_error contract "unknown configuration fields" stage)

abbrev pub config_error : String → Error
config_error message = k_dash_error contract message "registry-config"

-- `v == 1`, which `True` and `1.0` satisfy too
abbrev pub equals_one : Value → Bool
equals_one (int (pos n)) = nat_eq n 1
equals_one (int (negsuc n)) = false
equals_one (bool b) = b
equals_one (float x) = is_one x
equals_one _ = false

-- `isinstance(v, str) and v`, with the text
abbrev pub required_text : Value → Result String
required_text (str s) =
    if s == "" then err (config_error "name, url and repository_prefix are required") else ok s
required_text _ = err (config_error "name, url and repository_prefix are required")

-- `auth.get("type") not in {…}` and the table of fields; a list or a dict cannot be looked up in a set.
abbrev pub auth_fields : Value → Result (List String)
auth_fields (str s) =
    if s == "anonymous"
    then ok ("type" ∷ [])
    else if s == "basic"
    then ok ("type" ∷ "username" ∷ "password" ∷ "username_env" ∷ "password_env" ∷ [])
    else if s == "docker"
    then ok ("type" ∷ "config_path" ∷ [])
    else err (config_error "unsupported registry auth")
auth_fields (arr _) = raise_python type_error
auth_fields (obj _) = raise_python type_error
auth_fields _ = err (config_error "unsupported registry auth")

abbrev pub check_auth : Value → Result (Unit {0})
check_auth (obj fs) = do
  allowed ← auth_fields (get_or_null "type" fs)
  raise_if (not (only_keys allowed fs)) (config_error "unknown registry auth fields")
check_auth _ = err (config_error "unsupported registry auth")

-- `entry.get(key, default)`
abbrev pub get_or : String → Value → Fields → Value
get_or k d fs = elim (get_field k fs) [ none ↦ d | some v ↦ v ]

abbrev anonymous : Value
anonymous = obj (field "type" (str "anonymous") end)

-- `v is True`, `v is not False`
abbrev pub is_true : Value → Bool
is_true (bool b) = b
is_true _ = false

abbrev pub is_not_false : Value → Bool
is_not_false (bool b) = b
is_not_false _ = true

abbrev pub has_plain_url : Url → Bool
has_plain_url u =
    (u.scheme == "http" || u.scheme == "https")
    && not (u.netloc == "")
    && (u.path == "" || u.path == "/")

abbrev pub entry_keys : List String
entry_keys =
    "name" ∷ "url" ∷ "repository_prefix" ∷ "primary" ∷ "verify_tls" ∷ "ca_bundle" ∷ "auth" ∷ []

abbrev pub count_primary : RegistrySet → ℕ
count_primary [] = 0
count_primary (r ∷ rs) = if r.primary then suc (count_primary rs) else count_primary rs

abbrev pub nonempty_list : Value → Result Items
nonempty_list (arr (cons v vs)) = ok (cons v vs)
nonempty_list _ = err (config_error "registries must be a non-empty list")

abbrev pub mapping : Value → Result Fields
mapping (obj fs) = ok fs
mapping _ = err (config_error "configuration must be a mapping")

module _ (urlparse : String → Result Url) where
  -- One round of the loop over the entries; `names` are those of the entries before.
  unfoldable pub load_entry : (index : ℕ) → (names : List String) → Value → Result RegistryConfig
  load_entry index names (obj entry) = do
    expect_keys entry entry_keys ("registry-config[" <> (show index <> "]"))
    name ← required_text (get_or_null "name" entry)
    url ← required_text (get_or_null "url" entry)
    prefix ← required_text (get_or_null "repository_prefix" entry)
    parsed ← urlparse url
    raise_if (not (has_plain_url parsed))
        (config_error "registry url must contain only scheme and host")
    raise_if (contains names name) (config_error "registry names must be unique")
    check_auth (get_or "auth" anonymous entry)
    ok (record {
      name = name;
      url = strip_right is_slash url;
      repository_prefix = strip is_slash prefix;
      primary = is_true (get_or_null "primary" entry);
      verify_tls = is_not_false (get_or "verify_tls" (bool true) entry);
      ca_bundle = get_or_null "ca_bundle" entry;
      auth = get_or "auth" anonymous entry;
    })
  load_entry index names _ = err (config_error "registry entry must be a mapping")

  unfoldable pub load_entries : (index : ℕ) → (names : List String) → Items → Result RegistrySet
  unfolding load_entry
  load_entries index names nil = ok []
  load_entries index names (cons entry entries) = do
    registry ← load_entry index names entry
    rest ← load_entries (index + 1) (registry.name ∷ names) entries
    ok (registry ∷ rest)

  -- The file, if there is one, is what yaml.safe_load makes of its text.
  unfoldable pub load_registry_set : Option (Result Value) → Result RegistrySet
  unfolding load_entries
  load_registry_set none =
      raise registry_config_not_found "registry configuration does not exist" "registry-config"
  load_registry_set (some loaded) = do
    content ← loaded
    raw ← mapping content
    expect_keys raw ("schema_version" ∷ "registries" ∷ []) "registry-config"
    raise_if (not (equals_one (get_or_null "schema_version" raw)))
        (config_error "unsupported schema_version")
    entries ← nonempty_list (get_or_null "registries" raw)
    registries ← load_entries 0 [] entries
    raise_if (not (nat_eq (count_primary registries) 1))
        (config_error "exactly one primary registry is required")
    ok registries
