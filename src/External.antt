-- ===== src/External.antt =====
-- What the program calls and does not implement: hashlib, the JSON scanner of the standard library,
-- rfc8785 and jsonschema. Each is an argument of the definitions that use it.
use k_dash.Base.{All, ℕ, ◌≡◌, ◌⊎◌, String, List, Option, count}
use k_dash.Json.{Value, Items}

abbrev pub Bytes : Type 0
Bytes = List ℕ

-- What the scanner finds. A hook sees an object when it closes, so a text that is broken further on
-- has shown the hook the values that stand complete before the break.
pub data Scan : Type 0 where
  complete : Value → Scan
  broken : (before : Items) → Scan
  undecodable : Scan

pub record Libraries : Type 0 where
  -- hashlib.sha256(data).hexdigest()
  pub sha256_hex : Bytes → String
  -- json.loads before its hook runs: an object still has all its pairs.
  pub scan_json : Bytes → Scan
  -- rfc8785.dumps: the message of its exception, or the canonical bytes
  pub jcs : Value → String ⊎ Bytes
  -- Draft202012Validator(schema).validate(instance): the message, if it raises
  pub schema_error : (schema value : Value) → Option String

-- sha256 is written with 64 characters.
pub record IsHex (lib : Libraries) : Type 0 where
  pub count_hex : (content : Bytes) → count (lib.sha256_hex content) ≡ 64

-- Two byte strings that are no collision of sha256.
abbrev pub NoCollision : Libraries → Bytes → Bytes → Type 0
NoCollision lib a b = lib.sha256_hex a ≡ lib.sha256_hex b → a ≡ b

-- No byte string of the first list collides with one of the second.
abbrev pub NoCollisions : Libraries → List Bytes → List Bytes → Type 0
NoCollisions lib xs ys = All (λ x. All (λ y. NoCollision lib x y) ys) xs
