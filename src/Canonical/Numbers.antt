-- ===== src/Canonical/Numbers.antt =====
-- `_validate_i_json` against a description of the values that I-JSON can hold exactly.
use k_dash.Base.{suc, ◌≤◌, ◌≡◌, ◌↔◌, refl, false, arith, ok, >>-eq-ok}
use k_dash.Json.{
  Value, null, bool, int, float, str, arr, obj, other, Items, nil, cons, Fields, end, field, odd,
}
use k_dash.Json.Numbers.{ℤ, pos, negsuc, Float, nan, infinite, finite}
use k_dash.Canonical.{validate_i_json, validate_items, validate_fields}

-- The integers that a double represents exactly, with both neighbours.
abbrev pub IsExact : ℤ → Type 0
IsExact (pos n) = n ≤ 9007199254740991
IsExact (negsuc n) = suc n ≤ 9007199254740991

-- A finite double; a zero has no sign.
abbrev pub IsPlain : Float → Type 0
IsPlain nan = ⊥
IsPlain (infinite s) = ⊥
IsPlain (finite s m e) = (m ≡ 0) → s ≡ false

unfoldable mutual
  pub IsIJson : Value → Type 0
  IsIJson null = Unit
  IsIJson (bool b) = Unit
  IsIJson (int n) = IsExact n
  IsIJson (float x) = IsPlain x
  IsIJson (str s) = Unit
  IsIJson (arr vs) = IsIJsonItems vs
  IsIJson (obj fs) = IsIJsonFields fs
  IsIJson other = ⊥

  pub IsIJsonItems : Items → Type 0
  IsIJsonItems nil = Unit
  IsIJsonItems (cons v vs) = IsIJson v × IsIJsonItems vs

  pub IsIJsonFields : Fields → Type 0
  IsIJsonFields end = Unit
  IsIJsonFields (field k v fs) = IsIJson v × IsIJsonFields fs
  IsIJsonFields (odd v fs) = ⊥

int_iff : (n : ℤ) → (validate_i_json (int n) ≡ ok tt) ↔ IsExact n
unfolding validate_i_json
int_iff (pos n) = (λ h. ground arith, λ h. ground arith)
int_iff (negsuc n) = (λ h. ground arith, λ h. ground arith)

float_iff : (x : Float) → (validate_i_json (float x) ≡ ok tt) ↔ IsPlain x
unfolding validate_i_json
float_iff nan = (λ h. cc, λ h. absurd h)
float_iff (infinite s) = (λ h. cc, λ h. absurd h)
float_iff (finite s m e) = (λ h z. ground arith, λ h. ground arith)

mutual
  unfolding validate_i_json IsIJson

  value_iff : (v : Value) → (validate_i_json v ≡ ok tt) ↔ IsIJson v
  value_iff null = (λ _. tt, λ _. refl)
  value_iff (bool b) = (λ _. tt, λ _. refl)
  value_iff (str s) = (λ _. tt, λ _. refl)
  value_iff (int n) = int_iff n
  value_iff (float x) = float_iff x
  value_iff (arr vs) = items_iff vs
  value_iff (obj fs) = fields_iff fs
  value_iff other = (λ h. cc, λ h. absurd h)

  items_iff : (vs : Items) → (validate_items vs ≡ ok tt) ↔ IsIJsonItems vs
  items_iff nil = (λ _. tt, λ _. refl)
  items_iff (cons v vs) = (
    λ h.
        let (p, q) = >>-eq-ok (validate_i_json v) (validate_items vs) h in
        ((value_iff v).0 p, (items_iff vs).0 q),
    λ (p, q). rw ((value_iff v).1 p) ((items_iff vs).1 q),
  )

  fields_iff : (fs : Fields) → (validate_fields fs ≡ ok tt) ↔ IsIJsonFields fs
  fields_iff end = (λ _. tt, λ _. refl)
  fields_iff (odd v fs) = (λ h. cc, λ h. absurd h)
  fields_iff (field k v fs) = (
    λ h.
        let (p, q) = >>-eq-ok (validate_i_json v) (validate_fields fs) h in
        ((value_iff v).0 p, (fields_iff fs).0 q),
    λ (p, q). rw ((value_iff v).1 p) ((fields_iff fs).1 q),
  )

-- `_validate_i_json` passes exactly the values all of whose integers lie within 2^53 - 1 of zero, all
-- of whose floats are finite and not a negative zero, and all of whose keys are texts.
pub validate_i_json_iff : (v : Value) → (validate_i_json v ≡ ok tt) ↔ IsIJson v
validate_i_json_iff v = value_iff v
