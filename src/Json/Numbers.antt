-- ===== src/Json/Numbers.antt =====
-- The numbers of JSON as Python holds them: an `int` of any size, and an IEEE double.
use k_dash.Base.{ℕ, suc, ◌*◌, ◌^◌, Bool, true, false, nat_eq, leb, not, ◌&&◌, ◌||◌}

-- `negsuc n` is -(n + 1).
pub data ℤ : Type 0 where
  pos : ℕ → ℤ
  negsuc : ℕ → ℤ

-- `finite sign m e` is m * 2 ^ e, negative if `sign` is set; zero has both signs.
pub data Float : Type 0 where
  nan : Float
  infinite : (negative : Bool) → Float
  finite : (negative : Bool) (mantissa : ℕ) (exponent : ℤ) → Float

-- |a| ≤ bound
abbrev pub within : ℕ → ℤ → Bool
within bound (pos n) = leb n bound
within bound (negsuc n) = leb (suc n) bound

-- `math.isfinite(x)`
abbrev pub is_finite : Float → Bool
is_finite (finite s m e) = true
is_finite _ = false

-- `x == 0.0 and math.copysign(1.0, x) < 0`
abbrev pub is_negative_zero : Float → Bool
is_negative_zero (finite s m e) = nat_eq m 0 && s
is_negative_zero _ = false

-- `x == 1`
abbrev pub is_one : Float → Bool
is_one (finite s m (pos e)) = not s && nat_eq (m * 2 ^ e) 1
is_one (finite s m (negsuc e)) = not s && nat_eq m (2 ^ suc e)
is_one _ = false

-- `n == x` for a natural number
abbrev pub equals_float : ℕ → Float → Bool
equals_float n (finite s m (pos e)) = (not s || nat_eq m 0) && nat_eq (m * 2 ^ e) n
equals_float n (finite s m (negsuc e)) = (not s || nat_eq m 0) && nat_eq m (n * 2 ^ suc e)
equals_float n _ = false

abbrev pub is_zero : ℤ → Bool
is_zero (pos n) = nat_eq n 0
is_zero (negsuc n) = false

abbrev pub is_float_zero : Float → Bool
is_float_zero (finite s m e) = nat_eq m 0
is_float_zero _ = false
