-- ===== src/Json/Dict.antt =====
-- Laws of the dict operations of Json.antt.
use k_dash.Base.{String, ◌≡◌, refl, some, arith, ◌==◌, eq_iff, eq_refl, contains, if◌then◌else◌}
use k_dash.Json.{Value, Fields, end, field, odd, get_field, has_field, set_field, keys}

pub get_field-set_field :
    (k j : String) (v : Value) (fs : Fields)
    → get_field j (set_field k v fs) ≡ (if k == j then some v else get_field j fs)
unfolding get_field set_field
get_field-set_field k j v end = refl
get_field-set_field k j v (field i w fs) =
    ground (arith, eq_iff k j, eq_iff i k, eq_iff i j, get_field-set_field k j v fs)
get_field-set_field k j v (odd w fs) = get_field-set_field k j v fs

pub get_field-set_field_self :
    (k : String) (v : Value) (fs : Fields) → get_field k (set_field k v fs) ≡ some v
get_field-set_field_self k v fs = ground (arith, get_field-set_field k k v fs, eq_refl k)

-- Writing what is there changes nothing.
pub set_field-get_field :
    (k : String) (v : Value) (fs : Fields) → get_field k fs ≡ some v → set_field k v fs ≡ fs
unfolding get_field set_field
set_field-get_field k v end h = cc
set_field-get_field k v (field i w fs) h = ground (arith, set_field-get_field k v fs)
set_field-get_field k v (odd w fs) h = ground (arith, set_field-get_field k v fs)

pub contains-keys : (k : String) (fs : Fields) → contains (keys fs) k ≡ has_field k fs
unfolding get_field
contains-keys k end = refl
contains-keys k (field j v fs) = ground (arith, eq_iff k j, eq_iff j k, contains-keys k fs)
contains-keys k (odd v fs) = contains-keys k fs
