-- ===== src/Canonical/Defaults.antt =====
-- Filling in the defaults of a schema.
use k_dash.Base.{
  String, ◌≡◌, refl, ◌∙◌, ap, subst, Bool, true, false, Option, none, some, arith, ◌==◌, ok, err,
  Result, ◌>>=◌, >>=-eq-ok, Option-cases, inl, inr,
}
use k_dash.Json.{
  Value, null, bool, int, float, str, arr, obj, other, Items, nil, cons, Fields, end, field, odd,
  get_field, has_field, set_field,
}
use k_dash.Json.Dict.{get_field-set_field, set_field-get_field, get_field-set_field_self}
use k_dash.Canonical.{
  default_of, no_schema, property, map_items, apply_defaults, find_properties, properties_of,
  apply_properties, find_items,
}
use k_dash.Canonical.Duplicates.{DistinctKeys, NoDuplicates, NoDuplicatesFields}

-- What the loop body has done to one key.
data Outcome (k : String) (sub : Value) (inner : Value → Result Value) (is js : Fields)
    : Type 0 where
  absent : get_field k is ≡ none → default_of sub ≡ ok none → js ≡ is → Outcome k sub inner is js
  present :
      (v w : Value)
      → get_field k is ≡ some v
      → inner v ≡ ok w
      → js ≡ set_field k w is
      → Outcome k sub inner is js
  filled :
      (v w : Value)
      → get_field k is ≡ none
      → default_of sub ≡ ok (some v)
      → inner v ≡ ok w
      → js ≡ set_field k w (set_field k v is)
      → Outcome k sub inner is js

module _ (k : String) (sub : Value) (inner : Value → Result Value) (is : Fields) where
  Outcome-present :
      (v : Value) {js : Fields}
      → get_field k is ≡ some v
      → property k sub inner is ≡ ok js
      → Outcome k sub inner is js
  unfolding property
  Outcome-present v {js} e h =
      let h' : (inner v >>= λ w. ok (set_field k w is)) ≡ ok js = ground arith in
      let (w, p, q) = >>=-eq-ok (inner v) _ h' in present v w e p (cc)

  Outcome-filled :
      (v : Value) {js : Fields}
      → get_field k is ≡ none
      → default_of sub ≡ ok (some v)
      → property k sub inner is ≡ ok js
      → Outcome k sub inner is js
  unfolding property
  Outcome-filled v {js} e d h =
      let h' : (inner v >>= λ w. ok (set_field k w (set_field k v is))) ≡ ok js =
        ground (arith, get_field-set_field_self k v is) in
      let (w, p, q) = >>=-eq-ok (inner v) _ h' in filled v w e d p (cc)

  Outcome-absent :
      (d : Result (Option Value)) {js : Fields}
      → get_field k is ≡ none
      → default_of sub ≡ d
      → property k sub inner is ≡ ok js
      → Outcome k sub inner is js
  unfolding property
  Outcome-absent (ok none) e d h = absent e d (ground arith)
  Outcome-absent (ok (some v)) e d h = Outcome-filled v e d h
  Outcome-absent (err x) e d h = absurd (ground arith)

  outcome : {js : Fields} → property k sub inner is ≡ ok js → Outcome k sub inner is js
  outcome h = elim (Option-cases (get_field k is)) [
    | inl e ↦ Outcome-absent (default_of sub) e refl h
    | inr (v, e) ↦ Outcome-present v e h
  ]

-- The loop body touches no other key.
get_field-property :
    (k j : String) (sub : Value) (inner : Value → Result Value) (is js : Fields)
    → (k == j) ≡ false
    → Outcome k sub inner is js
    → get_field j js ≡ get_field j is
get_field-property k j sub inner is js differ (absent e d q) = ap (get_field j) q
get_field-property k j sub inner is js differ (present v w e p q) =
    ground (arith, q, get_field-set_field k j w is)
get_field-property k j sub inner is js differ (filled v w e d p q) =
    ground (arith, q, get_field-set_field k j w (set_field k v is), get_field-set_field k j v is)

abbrev Settles : (Value → Result Value) → Type 0
Settles f = (v w : Value) → f v ≡ ok w → f w ≡ ok w

-- After the loop body, the body changes nothing more, also where only other keys have changed.
property_settled :
    (k : String) (sub : Value) (inner : Value → Result Value) (is js ks : Fields)
    → Settles inner
    → Outcome k sub inner is js
    → get_field k ks ≡ get_field k js
    → property k sub inner ks ≡ ok ks
unfolding property
property_settled k sub inner is js ks s (absent e d q) same = ground (arith, ap (get_field k) q)
property_settled k sub inner is js ks s (present v w e p q) same =
    let there : get_field k ks ≡ some w =
      same ∙ ap (get_field k) q ∙ get_field-set_field_self k w is in
    ground (arith, s v w p, set_field-get_field k w ks there)
property_settled k sub inner is js ks s (filled v w e d p q) same =
    let there : get_field k ks ≡ some w =
      same ∙ ap (get_field k) q ∙ get_field-set_field_self k w (set_field k v is) in
    ground (arith, s v w p, set_field-get_field k w ks there)

map_items_idem :
    (f : Value → Result Value) (vs : Items) {ws : Items}
    → Settles f
    → map_items f vs ≡ ok ws
    → map_items f ws ≡ ok ws
unfolding map_items
map_items_idem f nil {ws} s h = let e : nil ≡ ws = cc in subst (λ x. map_items f x ≡ ok x) e refl
map_items_idem f (cons v vs) {ws} s h =
    let (w, e, e') = >>=-eq-ok (f v) _ h in
    let (xs, p, p') = >>=-eq-ok (map_items f vs) _ e' in
    let q : cons w xs ≡ ws = cc in
    subst (λ x. map_items f x ≡ ok x) q (rw (s v w e, map_items_idem f vs s p))

no_schema_idem : Settles no_schema
no_schema_idem (obj fs) w h = cc
no_schema_idem (arr vs) w h = cc
no_schema_idem null w h = let e : null ≡ w = cc in subst (λ x. no_schema x ≡ ok x) e refl
no_schema_idem (bool b) w h = let e : bool b ≡ w = cc in subst (λ x. no_schema x ≡ ok x) e refl
no_schema_idem (int n) w h = let e : int n ≡ w = cc in subst (λ x. no_schema x ≡ ok x) e refl
no_schema_idem (float f) w h = let e : float f ≡ w = cc in subst (λ x. no_schema x ≡ ok x) e refl
no_schema_idem (str s) w h = let e : str s ≡ w = cc in subst (λ x. no_schema x ≡ ok x) e refl
no_schema_idem other w h = let e : other ≡ w = cc in subst (λ x. no_schema x ≡ ok x) e refl

-- Later properties leave a key alone that is none of theirs.
get_field-apply_properties :
    (j : String) (ps is : Fields) {js : Fields}
    → has_field j ps ≡ false
    → apply_properties ps is ≡ ok js
    → get_field j js ≡ get_field j is
unfolding apply_defaults get_field
get_field-apply_properties j end is {js} h e = let q : js ≡ is = cc in ap (get_field j) q
get_field-apply_properties j (odd v ps) is h e = get_field-apply_properties j ps is h e
get_field-apply_properties j (field k sub ps) is {js} h e =
    let (ms, p, p') = >>=-eq-ok (property k sub (apply_defaults sub) is) _ e in
    let differ : (k == j) ≡ false = ground arith in
    get_field-apply_properties j ps ms (ground arith) p'
    ∙ get_field-property k j sub (apply_defaults sub) is ms differ (outcome k sub _ is p)

settle_if {ℓ} :
    {A : Type ℓ} {a b a' b' c : Result A} (test : Bool)
    → (a ≡ c → a' ≡ c)
    → (b ≡ c → b' ≡ c)
    → elim test as (λ _. Result A) [ true ↦ a | false ↦ b ] ≡ c
    → elim test as (λ _. Result A) [ true ↦ a' | false ↦ b' ] ≡ c
settle_if true f g h = f h
settle_if false f g h = g h

settle_obj :
    (fs : Fields)
    → ((is js : Fields) → find_properties fs is ≡ ok js → find_properties fs js ≡ ok js)
    → ((vs ws : Items) → find_items fs vs ≡ ok ws → find_items fs ws ≡ ok ws)
    → Settles (apply_defaults (obj fs))
unfolding apply_defaults
settle_obj fs f g (obj is) w h =
    let (js, p, q) = >>=-eq-ok (find_properties fs is) _ h in
    let e : obj js ≡ w = cc in subst (λ x. apply_defaults (obj fs) x ≡ ok x) e (rw (f is js p))
settle_obj fs f g (arr vs) w h =
    let (ws, p, q) = >>=-eq-ok (find_items fs vs) _ h in
    let e : arr ws ≡ w = cc in subst (λ x. apply_defaults (obj fs) x ≡ ok x) e (rw (g vs ws p))
settle_obj fs f g null w h =
    let e : null ≡ w = cc in subst (λ x. apply_defaults (obj fs) x ≡ ok x) e refl
settle_obj fs f g (bool b) w h =
    let e : bool b ≡ w = cc in subst (λ x. apply_defaults (obj fs) x ≡ ok x) e refl
settle_obj fs f g (int n) w h =
    let e : int n ≡ w = cc in subst (λ x. apply_defaults (obj fs) x ≡ ok x) e refl
settle_obj fs f g (float n) w h =
    let e : float n ≡ w = cc in subst (λ x. apply_defaults (obj fs) x ≡ ok x) e refl
settle_obj fs f g (str n) w h =
    let e : str n ≡ w = cc in subst (λ x. apply_defaults (obj fs) x ≡ ok x) e refl
settle_obj fs f g other w h =
    let e : other ≡ w = cc in subst (λ x. apply_defaults (obj fs) x ≡ ok x) e refl

mutual
  unfolding apply_defaults NoDuplicates

  defaults_settle : (s : Value) → NoDuplicates s → Settles (apply_defaults s)
  defaults_settle (obj fs) d v w h =
      settle_obj fs (find_properties-settles fs d.1) (find_items-settles fs d.1) v w h
  defaults_settle null d v w h = no_schema_idem v w h
  defaults_settle (bool b) d v w h = no_schema_idem v w h
  defaults_settle (int n) d v w h = no_schema_idem v w h
  defaults_settle (float f) d v w h = no_schema_idem v w h
  defaults_settle (str s) d v w h = no_schema_idem v w h
  defaults_settle (arr vs) d v w h = no_schema_idem v w h
  defaults_settle other d v w h = no_schema_idem v w h

  find_properties-settles :
      (fs : Fields)
      → NoDuplicatesFields fs
      → (is js : Fields) → find_properties fs is ≡ ok js
      → find_properties fs js ≡ ok js
  find_properties-settles end d is js h = refl
  find_properties-settles (odd v fs) d is js h = find_properties-settles fs d.1 is js h
  find_properties-settles (field k v fs) d is js h =
      settle_if (k == "properties") (properties_of-settles v d.0 is js)
        (find_properties-settles fs d.1 is js) h

  properties_of-settles :
      (v : Value)
      → NoDuplicates v
      → (is js : Fields) → properties_of v is ≡ ok js
      → properties_of v js ≡ ok js
  properties_of-settles (obj ps) d is js h = apply_properties-settles ps d.0 d.1 is js h
  properties_of-settles null d is js h = cc
  properties_of-settles (bool b) d is js h = cc
  properties_of-settles (int n) d is js h = cc
  properties_of-settles (float f) d is js h = cc
  properties_of-settles (str s) d is js h = cc
  properties_of-settles (arr vs) d is js h = cc
  properties_of-settles other d is js h = cc

  apply_properties-settles :
      (ps : Fields)
      → DistinctKeys ps
      → NoDuplicatesFields ps
      → (is js : Fields) → apply_properties ps is ≡ ok js
      → apply_properties ps js ≡ ok js
  apply_properties-settles end k d is js h = refl
  apply_properties-settles (odd v ps) k d is js h = absurd k
  apply_properties-settles (field k sub ps) (fresh, distinct) d is js h =
      let (ms, p, p') = >>=-eq-ok (property k sub (apply_defaults sub) is) _ h in
      let rest = apply_properties-settles ps distinct d.1 ms js p' in
      let here =
        property_settled k sub (apply_defaults sub) is ms js (defaults_settle sub d.0)
          (outcome k sub _ is p) (get_field-apply_properties k ps ms fresh p') in
      rw (here, rest)

  find_items-settles :
      (fs : Fields)
      → NoDuplicatesFields fs
      → (vs ws : Items) → find_items fs vs ≡ ok ws
      → find_items fs ws ≡ ok ws
  find_items-settles end d vs ws h = refl
  find_items-settles (odd v fs) d vs ws h = find_items-settles fs d.1 vs ws h
  find_items-settles (field k v fs) d vs ws h =
      settle_if (k == "items") (map_items_idem (apply_defaults v) vs (defaults_settle v d.0))
        (find_items-settles fs d.1 vs ws) h

-- Filling in the defaults of a schema that repeats no key a second time changes nothing.
pub apply_defaults_idem :
    (schema instance' : Value) {filled' : Value}
    → NoDuplicates schema
    → apply_defaults schema instance' ≡ ok filled'
    → apply_defaults schema filled' ≡ ok filled'
apply_defaults_idem schema v {filled' = w} d h = defaults_settle schema d v w h
