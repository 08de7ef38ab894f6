-- ===== src/Json.antt =====
-- The Python values that the program passes around as `Any`: what json.loads and yaml.safe_load
-- return, and what a caller of `load` may put in `jit_args`. A `dict` keeps its insertion order.
pub mod Dict
pub mod Numbers
use k_dash.Base.{String, Bool, true, false, Option, none, some, List, [], ◌∷◌, ◌==◌, if◌then◌else◌}
use k_dash.Json.Numbers.{ℤ, Float}

mutual
  pub data Value : Type 0 where
    null : Value
    bool : Bool → Value
    int : ℤ → Value
    float : Float → Value
    str : String → Value
    arr : Items → Value
    obj : Fields → Value
    -- any other Python object
    other : Value

  pub data Items : Type 0 where
    nil : Items
    cons : Value → Items → Items

  -- `odd` is an entry whose key is no text.
  pub data Fields : Type 0 where
    end : Fields
    field : String → Value → Fields → Fields
    odd : Value → Fields → Fields

abbrev pub values : Items → List Value
values nil = []
values (cons v vs) = v ∷ values vs

abbrev pub items : List Value → Items
items [] = nil
items (v ∷ vs) = cons v (items vs)

-- A dict literal.
abbrev pub fields : List (String × Value) → Fields
fields [] = end
fields ((k, v) ∷ fs) = field k v (fields fs)

-- `d.get(k)`, with `none` where the key is missing
unfoldable pub get_field : String → Fields → Option Value
get_field k end = none
get_field k (field j v fs) = if j == k then some v else get_field k fs
get_field k (odd v fs) = get_field k fs

-- `k in d`
abbrev pub has_field : String → Fields → Bool
has_field k fs = elim (get_field k fs) [ none ↦ false | some _ ↦ true ]

-- `d.get(k)` where a missing key reads as `None`
abbrev pub get_or_null : String → Fields → Value
get_or_null k fs = elim (get_field k fs) [ none ↦ null | some v ↦ v ]

-- `d[k] = v`
unfoldable pub set_field : String → Value → Fields → Fields
set_field k v end = field k v end
set_field k v (field j w fs) = if j == k then field j v fs else field j w (set_field k v fs)
set_field k v (odd w fs) = odd w (set_field k v fs)

-- `isinstance(v, dict)`
abbrev pub is_dict : Value → Bool
is_dict (obj fs) = true
is_dict _ = false

-- A text that is not empty: `isinstance(v, str) and v`.
abbrev pub is_nonempty_str : Value → Bool
is_nonempty_str (str s) = if s == "" then false else true
is_nonempty_str _ = false

-- The text keys of a dict, in order.
abbrev pub keys : Fields → List String
keys end = []
keys (field k v fs) = k ∷ keys fs
keys (odd v fs) = keys fs
