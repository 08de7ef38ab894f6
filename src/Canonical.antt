-- ===== src/Canonical.antt =====
-- canonical.py: Args normalisation and the BuildKey. The proofs are in the modules below.
pub mod Duplicates
pub mod Numbers
pub mod Defaults
pub mod BuildKey
use Prim.Native.String.{String}
use text.Mathlib.Text.{find?}
use k_dash.Base.{
  ℕ, ◌-◌, ◌^◌, ◌≡◌, Bool, true, false, not, ◌&&◌, ◌||◌, Option, none, some, inl, inr, ◌⊎◌, ◌==◌,
  ◌<>◌, count, nat_eq, if◌then◌else◌, Result, ok, err, raise, raise_python, raise_if, ◌>>=◌, ◌>>◌,
  Error, k_dash_error, contract, type_error, attribute_error, value_error, python_error,
}
use k_dash.Base.Text.{starts_with, remove_prefix}
use k_dash.Json.{
  Value, null, bool, int, float, str, arr, obj, other, Items, nil, cons, Fields, end, field, odd,
  get_field, has_field, set_field,
}
use k_dash.Json.Numbers.{within, is_finite, is_negative_zero}
use k_dash.External.{Bytes, Scan, complete, broken, undecodable, Libraries}
use k_dash.Model.{BuildSpec, spec_dict}

-- MAX_SAFE_INTEGER
abbrev pub max_safe_integer : ℕ
max_safe_integer = 2 ^ 53 - 1

-- The hook of `loads_no_duplicates`: the dict so far, and the pairs still to come. The keys of JSON
-- are texts, so the clause for `odd` is never taken.
unfoldable pub pairs : (stage : String) → Fields → Fields → Result Fields
pairs stage output end = ok output
pairs stage output (odd v rest) = raise_python type_error
pairs stage output (field k v rest) =
    if has_field k output
    then raise contract "duplicate JSON object key" stage
    else pairs stage (set_field k v output) rest

-- json.loads with the hook: every object goes through `pairs` when it closes.
unfoldable mutual
  unfolding pairs

  pub load_value : (stage : String) → Value → Result Value
  load_value stage (arr vs) = do ws ← load_items stage vs; ok (arr ws)
  load_value stage (obj fs) = do gs ← load_fields stage fs; d ← pairs stage end gs; ok (obj d)
  load_value stage null = ok null
  load_value stage (bool b) = ok (bool b)
  load_value stage (int n) = ok (int n)
  load_value stage (float x) = ok (float x)
  load_value stage (str s) = ok (str s)
  load_value stage other = ok other

  pub load_items : (stage : String) → Items → Result Items
  load_items stage nil = ok nil
  load_items stage (cons v vs) = do w ← load_value stage v; ws ← load_items stage vs; ok (cons w ws)

  pub load_fields : (stage : String) → Fields → Result Fields
  load_fields stage end = ok end
  load_fields stage (field k v fs) = do
    w ← load_value stage v
    gs ← load_fields stage fs
    ok (field k w gs)
  load_fields stage (odd v fs) = do w ← load_value stage v; gs ← load_fields stage fs; ok (odd w gs)

-- A UnicodeDecodeError, a ValueError, is not caught.
unfoldable pub load_scan : (stage : String) → Scan → Result Value
unfolding load_value
load_scan stage (complete v) = load_value stage v
load_scan stage (broken before) =
    load_items stage before >>= λ _. raise contract "invalid JSON" stage
load_scan stage undecodable = raise_python value_error

unfoldable pub loads_no_duplicates : Libraries → (stage : String) → Bytes → Result Value
unfolding load_scan
loads_no_duplicates lib stage payload = load_scan stage (lib.scan_json payload)

-- `"default" in xs` for a list
abbrev pub lists_default : Items → Bool
lists_default nil = false
lists_default (cons (str s) vs) = s == "default" || lists_default vs
lists_default (cons v vs) = lists_default vs

-- `copy.deepcopy(subschema["default"])` where `"default" in subschema`: `in` of a number, a bool or
-- None raises, and a text or a list that holds "default" cannot be indexed by it.
abbrev pub default_of : Value → Result (Option Value)
default_of (obj fs) = ok (get_field "default" fs)
default_of (str s) = elim (find? s "default") [ none ↦ ok none | some _ ↦ raise_python type_error ]
default_of (arr vs) = if lists_default vs then raise_python type_error else ok none
default_of _ = raise_python type_error

-- `if key not in instance and "default" in subschema: instance[key] = …`
abbrev pub fill : String → Value → Fields → Result Fields
fill key subschema instance' = elim (get_field key instance') [
  | some _ ↦ ok instance'
  | none ↦ default_of subschema >>= λ d. elim d [
    | none ↦ ok instance'
    | some v ↦ ok (set_field key v instance')
  ]
]

-- `if key in instance: instance[key] = _apply_defaults(instance[key], subschema)`
abbrev pub descend : String → (Value → Result Value) → Fields → Result Fields
descend key inner instance' = elim (get_field key instance') [
  | none ↦ ok instance'
  | some v ↦ inner v >>= λ w. ok (set_field key w instance')
]

-- The body of the loop over the properties.
unfoldable pub property : String → Value → (Value → Result Value) → Fields → Result Fields
property key subschema inner instance' = do
  filled ← fill key subschema instance'
  descend key inner filled

unfoldable pub map_items : (Value → Result Value) → Items → Result Items
map_items f nil = ok nil
map_items f (cons v vs) = do w ← f v; ws ← map_items f vs; ok (cons w ws)

-- A schema that is no dict has no `get`; only dicts and lists ask for it.
abbrev pub no_schema : Value → Result Value
no_schema (obj _) = raise_python attribute_error
no_schema (arr _) = raise_python attribute_error
no_schema v = ok v

-- `_apply_defaults(instance, schema)`, by recursion on the schema. `apply_properties` is the loop
-- over `schema.get("properties", {}).items()`, and the key "items" is looked up in the same way.
unfoldable mutual
  unfolding map_items property

  pub apply_defaults : Value → Value → Result Value
  apply_defaults (obj fs) (obj is) = do js ← find_properties fs is; ok (obj js)
  apply_defaults (obj fs) (arr vs) = do ws ← find_items fs vs; ok (arr ws)
  apply_defaults (obj fs) v = ok v
  apply_defaults null v = no_schema v
  apply_defaults (bool _) v = no_schema v
  apply_defaults (int _) v = no_schema v
  apply_defaults (float _) v = no_schema v
  apply_defaults (str _) v = no_schema v
  apply_defaults (arr _) v = no_schema v
  apply_defaults other v = no_schema v

  pub find_properties : Fields → Fields → Result Fields
  find_properties end is = ok is
  find_properties (field k v fs) is = elim (k == "properties") [
    | true ↦ properties_of v is
    | false ↦ find_properties fs is
  ]
  find_properties (odd v fs) is = find_properties fs is

  pub properties_of : Value → Fields → Result Fields
  properties_of (obj ps) is = apply_properties ps is
  properties_of _ is = raise_python attribute_error

  -- A schema is read from JSON, so all its keys are texts.
  pub apply_properties : Fields → Fields → Result Fields
  apply_properties end is = ok is
  apply_properties (field k sub ps) is = do
    js ← property k sub (apply_defaults sub) is
    apply_properties ps js
  apply_properties (odd v ps) is = apply_properties ps is

  pub find_items : Fields → Items → Result Items
  find_items end vs = ok vs
  find_items (field k v fs) vs = elim (k == "items") [
    | true ↦ map_items (apply_defaults v) vs
    | false ↦ find_items fs vs
  ]
  find_items (odd v fs) vs = find_items fs vs

abbrev i_json_error : Result (Unit {0})
i_json_error = raise contract "integer is outside the I-JSON exact range" "args"

abbrev float_error : Result (Unit {0})
float_error = raise contract "non-finite and negative-zero numbers are forbidden" "args"

-- `_validate_i_json`
unfoldable mutual
  pub validate_i_json : Value → Result (Unit {0})
  validate_i_json null = ok tt
  validate_i_json (bool b) = ok tt
  validate_i_json (str s) = ok tt
  validate_i_json (int n) = if within max_safe_integer n then ok tt else i_json_error
  validate_i_json (float x) = if not (is_finite x) || is_negative_zero x then float_error else ok tt
  validate_i_json (arr vs) = validate_items vs
  validate_i_json (obj fs) = validate_fields fs
  validate_i_json other = raise contract "value is not JSON-compatible" "args"

  pub validate_items : Items → Result (Unit {0})
  validate_items nil = ok tt
  validate_items (cons v vs) = do validate_i_json v; validate_items vs

  pub validate_fields : Fields → Result (Unit {0})
  validate_fields end = ok tt
  validate_fields (field k v fs) = do validate_i_json v; validate_fields fs
  validate_fields (odd v fs) = raise contract "object keys must be strings" "args"

-- `if raw is None: raw = {}`
abbrev pub or_empty : Value → Value
or_empty null = obj end
or_empty v = v

-- jsonschema.ValidationError becomes a ContractError with its message.
abbrev pub check_schema : Libraries → (schema value : Value) → Result (Unit {0})
check_schema lib schema v = elim (lib.schema_error schema v) [
  | none ↦ ok tt
  | some message ↦ raise contract message "args"
]

module _ (lib : Libraries) where
  unfoldable pub normalize_args : (raw schema : Value) → Result Value
  unfolding apply_defaults validate_i_json
  normalize_args raw schema = elim (or_empty raw) [
    | obj fs ↦ (do
      normalized ← apply_defaults schema (obj fs)
      check_schema lib schema normalized
      validate_i_json normalized
      ok normalized)
    | _ ↦ raise contract "kernel args must be a JSON object" "args"
  ]

  abbrev pub encoded : String ⊎ Bytes → Result Bytes
  encoded (inl message) = raise contract message "canonical-json"
  encoded (inr bytes) = ok bytes

  unfoldable pub canonical_json : Value → Result Bytes
  unfolding validate_i_json
  canonical_json v = do validate_i_json v; encoded (lib.jcs v)

  abbrev pub digest_bytes : Bytes → String
  digest_bytes content = "sha256:" <> lib.sha256_hex content

  -- `build_key` of a dict, and of a `BuildSpec`
  unfoldable pub build_key : Value → Result String
  unfolding canonical_json
  build_key value = do bytes ← canonical_json value; ok (digest_bytes bytes)

  abbrev pub spec_key : BuildSpec → Result String
  spec_key spec = build_key (spec_dict spec)

unfoldable pub build_tag : String → Result String
build_tag key =
    if not (starts_with key "sha256:") || not (nat_eq (count key) 71)
    then raise contract "invalid BuildKey" "build-key"
    else ok ("build-sha256-" <> remove_prefix key "sha256:")
