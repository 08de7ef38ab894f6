-- ===== src/Canonical/Duplicates.antt =====
-- `loads_no_duplicates` accepts exactly the JSON texts in which no object repeats a key.
use k_dash.Base.{
  String, ◌≡◌, ◌↔◌, refl, sym, ◌∙◌, ap, true, false, arith, eq_iff, ok, >>=-eq-ok, Bool-cases, inl,
  inr, subst,
}
use k_dash.Json.{
  Value, null, bool, int, float, str, arr, obj, other, Items, nil, cons, Fields, end, field, odd,
  get_field, has_field, set_field,
}
use k_dash.Json.Dict.{get_field-set_field}
use k_dash.External.{Bytes, Scan, complete, broken, undecodable, Libraries}
use k_dash.Canonical.{pairs, load_value, load_items, load_fields, load_scan, loads_no_duplicates}

abbrev pub DistinctKeys : Fields → Type 0
DistinctKeys end = Unit
DistinctKeys (field k v fs) = (has_field k fs ≡ false) × DistinctKeys fs
DistinctKeys (odd v fs) = ⊥

-- No object inside the value repeats a key.
unfoldable mutual
  pub NoDuplicates : Value → Type 0
  NoDuplicates (arr vs) = NoDuplicatesItems vs
  NoDuplicates (obj fs) = DistinctKeys fs × NoDuplicatesFields fs
  NoDuplicates null = Unit
  NoDuplicates (bool b) = Unit
  NoDuplicates (int n) = Unit
  NoDuplicates (float x) = Unit
  NoDuplicates (str s) = Unit
  NoDuplicates other = Unit

  pub NoDuplicatesItems : Items → Type 0
  NoDuplicatesItems nil = Unit
  NoDuplicatesItems (cons v vs) = NoDuplicates v × NoDuplicatesItems vs

  pub NoDuplicatesFields : Fields → Type 0
  NoDuplicatesFields end = Unit
  NoDuplicatesFields (field k v fs) = NoDuplicates v × NoDuplicatesFields fs
  NoDuplicatesFields (odd v fs) = NoDuplicates v × NoDuplicatesFields fs

abbrev append : Fields → Fields → Fields
append end gs = gs
append (field k v fs) gs = field k v (append fs gs)
append (odd v fs) gs = odd v (append fs gs)

append_assoc : (fs gs hs : Fields) → append (append fs gs) hs ≡ append fs (append gs hs)
append_assoc end gs hs = refl
append_assoc (field k v fs) gs hs = ap (field k v) (append_assoc fs gs hs)
append_assoc (odd v fs) gs hs = ap (odd v) (append_assoc fs gs hs)

-- A new key goes to the end.
set_field_fresh :
    (k : String) (v : Value) (fs : Fields)
    → has_field k fs ≡ false
    → set_field k v fs ≡ append fs (field k v end)
unfolding get_field set_field
set_field_fresh k v end h = refl
set_field_fresh k v (field j w fs) h = ground (arith, set_field_fresh k v fs)
set_field_fresh k v (odd w fs) h = ap (odd w) (set_field_fresh k v fs h)

abbrev Disjoint : Fields → Fields → Type 0
Disjoint fs gs = (k : String) → has_field k fs ≡ true → has_field k gs ≡ false

append-end : (fs : Fields) → append fs end ≡ fs
append-end end = refl
append-end (field k v fs) = ap (field k v) (append-end fs)
append-end (odd v fs) = ap (odd v) (append-end fs)

Disjoint-field :
    (k : String) (v : Value) (out fs : Fields)
    → has_field k out ≡ false
    → Disjoint (set_field k v out) fs
    → (has_field k fs ≡ false) × Disjoint out (field k v fs)
unfolding get_field
Disjoint-field k v out fs new d = (
  d k (ground (arith, get_field-set_field k k v out, eq_iff k k)),
  λ j old. ground (arith, d j, get_field-set_field k j v out, eq_iff k j),
)

-- What the hook returns is what it was given, after the dict so far, and no key is repeated.
pairs-eq-ok :
    (stage : String) (out fs : Fields) {d : Fields}
    → pairs stage out fs ≡ ok d
    → (d ≡ append out fs) × DistinctKeys fs × Disjoint out fs
unfolding pairs
pairs-eq-ok stage out end h = (rw append-end (cc), tt, λ k _. unfold get_field in refl)
pairs-eq-ok stage out (odd v fs) h = cc
pairs-eq-ok stage out (field k v fs) {d} h = elim (Bool-cases (has_field k out)) [
  | inl old ↦ ground arith
  | inr new ↦
      let h' : pairs stage (set_field k v out) fs ≡ ok d = ground arith in
      let (same, distinct, apart) = pairs-eq-ok stage (set_field k v out) fs h' in
      let (fresh, apart') = Disjoint-field k v out fs new apart in
      (
        same
            ∙ ap (λ o. append o fs) (set_field_fresh k v out new)
            ∙ append_assoc out (field k v end) fs,
        (fresh, distinct),
        apart',
      )
]

Disjoint-set_field :
    (k : String) (v : Value) (fs out : Fields)
    → has_field k fs ≡ false
    → Disjoint (field k v fs) out
    → (has_field k out ≡ false) × Disjoint fs (set_field k v out)
unfolding get_field
Disjoint-set_field k v fs out fresh d = (
  d k (ground (arith, eq_iff k k)),
  λ j inside. ground (arith, d j, get_field-set_field k j v out, eq_iff k j),
)

pairs-of_distinct :
    (stage : String) (out fs : Fields)
    → DistinctKeys fs
    → Disjoint fs out
    → pairs stage out fs ≡ ok (append out fs)
unfolding pairs
pairs-of_distinct stage out end _ d = rw append-end
pairs-of_distinct stage out (odd v fs) h d = absurd h
pairs-of_distinct stage out (field k v fs) (fresh, h) d =
    let (new, apart) = Disjoint-set_field k v fs out fresh d in
    rw new (
      pairs-of_distinct stage (set_field k v out) fs h apart
      ∙ ap (λ o. ok o)
          (ap (λ o. append o fs) (set_field_fresh k v out new)
            ∙ append_assoc out (field k v end) fs))

pairs-end_iff :
    (stage : String) (fs d : Fields) → (pairs stage end fs ≡ ok d) ↔ ((d ≡ fs) × DistinctKeys fs)
pairs-end_iff stage fs d = (
  λ h. let (same, distinct, _) = pairs-eq-ok stage end fs h in (same, distinct),
  λ (same, distinct).
      rw same (pairs-of_distinct stage end fs distinct (λ k _. unfold get_field in refl)),
)

-- A value that loads is loaded as it is written, and repeats no key.
mutual
  unfolding load_value NoDuplicates

  load_value-eq-ok :
      (stage : String) (v : Value) {w : Value}
      → load_value stage v ≡ ok w
      → (w ≡ v) × NoDuplicates v
  load_value-eq-ok stage (arr vs) h =
      let (ws, e, e') = >>=-eq-ok (load_items stage vs) _ h in
      let (same, none_twice) = load_items-eq-ok stage vs e in (cc, none_twice)
  load_value-eq-ok stage (obj fs) h =
      let (gs, e, e') = >>=-eq-ok (load_fields stage fs) _ h in
      let (d, p, p') = >>=-eq-ok (pairs stage end gs) _ e' in
      let (same, none_twice) = load_fields-eq-ok stage fs e in
      let (same', distinct) = (pairs-end_iff stage gs d).0 p in
      (cc, (subst DistinctKeys same distinct, none_twice))
  load_value-eq-ok stage null h = (cc, tt)
  load_value-eq-ok stage (bool b) h = (cc, tt)
  load_value-eq-ok stage (int n) h = (cc, tt)
  load_value-eq-ok stage (float x) h = (cc, tt)
  load_value-eq-ok stage (str s) h = (cc, tt)
  load_value-eq-ok stage other h = (cc, tt)

  load_items-eq-ok :
      (stage : String) (vs : Items) {ws : Items}
      → load_items stage vs ≡ ok ws
      → (ws ≡ vs) × NoDuplicatesItems vs
  load_items-eq-ok stage nil h = (cc, tt)
  load_items-eq-ok stage (cons v vs) h =
      let (w, e, e') = >>=-eq-ok (load_value stage v) _ h in
      let (xs, p, p') = >>=-eq-ok (load_items stage vs) _ e' in
      let (same, one) = load_value-eq-ok stage v e in
      let (same', all) = load_items-eq-ok stage vs p in (cc, (one, all))

  load_fields-eq-ok :
      (stage : String) (fs : Fields) {gs : Fields}
      → load_fields stage fs ≡ ok gs
      → (gs ≡ fs) × NoDuplicatesFields fs
  load_fields-eq-ok stage end h = (cc, tt)
  load_fields-eq-ok stage (field k v fs) h =
      let (w, e, e') = >>=-eq-ok (load_value stage v) _ h in
      let (xs, p, p') = >>=-eq-ok (load_fields stage fs) _ e' in
      let (same, one) = load_value-eq-ok stage v e in
      let (same', all) = load_fields-eq-ok stage fs p in (cc, (one, all))
  load_fields-eq-ok stage (odd v fs) h =
      let (w, e, e') = >>=-eq-ok (load_value stage v) _ h in
      let (xs, p, p') = >>=-eq-ok (load_fields stage fs) _ e' in
      let (same, one) = load_value-eq-ok stage v e in
      let (same', all) = load_fields-eq-ok stage fs p in (cc, (one, all))

mutual
  unfolding load_value NoDuplicates

  load_value-of_distinct : (stage : String) (v : Value) → NoDuplicates v → load_value stage v ≡ ok v
  load_value-of_distinct stage (arr vs) h = rw (load_items-of_distinct stage vs h)
  load_value-of_distinct stage (obj fs) (d, h) =
      rw (load_fields-of_distinct stage fs h, (pairs-end_iff stage fs fs).1 (refl, d))
  load_value-of_distinct stage null h = refl
  load_value-of_distinct stage (bool b) h = refl
  load_value-of_distinct stage (int n) h = refl
  load_value-of_distinct stage (float x) h = refl
  load_value-of_distinct stage (str s) h = refl
  load_value-of_distinct stage other h = refl

  load_items-of_distinct :
      (stage : String) (vs : Items) → NoDuplicatesItems vs → load_items stage vs ≡ ok vs
  load_items-of_distinct stage nil h = refl
  load_items-of_distinct stage (cons v vs) (one, all) =
      rw (load_value-of_distinct stage v one, load_items-of_distinct stage vs all)

  load_fields-of_distinct :
      (stage : String) (fs : Fields) → NoDuplicatesFields fs → load_fields stage fs ≡ ok fs
  load_fields-of_distinct stage end h = refl
  load_fields-of_distinct stage (field k v fs) (one, all) =
      rw (load_value-of_distinct stage v one, load_fields-of_distinct stage fs all)
  load_fields-of_distinct stage (odd v fs) (one, all) =
      rw (load_value-of_distinct stage v one, load_fields-of_distinct stage fs all)

load_scan-eq-ok :
    (stage : String) (scan : Scan) {v : Value}
    → load_scan stage scan ≡ ok v
    → (scan ≡ complete v) × NoDuplicates v
unfolding load_scan
load_scan-eq-ok stage (complete v') h =
    let (same, d) = load_value-eq-ok stage v' h in (cc, subst NoDuplicates (sym same) d)
load_scan-eq-ok stage (broken before) h =
    absurd (let (_, _, no_value) = >>=-eq-ok (load_items stage before) _ h in cc)
load_scan-eq-ok stage undecodable h = cc

-- `loads_no_duplicates` returns a value exactly when the JSON scanner finds that value whole and no
-- object in it repeats a key; nothing is dropped or reordered on the way.
pub loads_no_duplicates-eq-ok :
    (lib : Libraries) (stage : String) (payload : Bytes) (v : Value)
    → (loads_no_duplicates lib stage payload ≡ ok v)
      ↔ ((lib.scan_json payload ≡ complete v) × NoDuplicates v)
unfolding loads_no_duplicates
loads_no_duplicates-eq-ok lib stage payload v = (
  load_scan-eq-ok stage (lib.scan_json payload),
  λ (e, d). rw (loads_no_duplicates, e) (load_value-of_distinct stage v d),
)
