-- ===== src/Config/Valid.antt =====
-- What a loaded configuration guarantees to the code that uses a RegistrySet.
use mathlib.Core.List.{Perm}
use mathlib.Core.List.Perm
use k_dash.Base.{
  ◌==◌, on_else, ℕ, ◌+◌, ◌≡◌, ◌∙◌, refl, sym, ap, subst, String, true, false, not, Option, none,
  some, List, [], ◌∷◌, eq_iff, nat_eq, contains, All, IsDistinct, map, Result, ok, err, arith,
  ok_injective, on_ok, on_pass, on_unit, Bool-cases, inl, inr,
}
use k_dash.Json.{
  Value, arr, obj, null, bool, int, float, str, other, Items, nil, cons, Fields, field, end,
  get_or_null,
}
use k_dash.Model.{RegistryConfig, RegistrySet, primary, secondaries}
use k_dash.Base.Text.{strip, strip_right, is_slash}
use k_dash.Config.{
  is_true, is_not_false, get_or, only_keys, entry_keys, Url, required_text, has_plain_url,
  check_auth, load_entry, load_entries, count_primary, equals_one, mapping, nonempty_list,
  load_registry_set,
}

abbrev names : RegistrySet → List String
names = map (λ r. r.name)

abbrev name_of : Result RegistryConfig → String
name_of (ok r) = r.name
name_of (err e) = ""

-- Names that are new to a longer list are new to a shorter one, and differ from its head.
All-new :
    (n : String) (before : List String) (rs : RegistrySet)
    → All (λ r. contains (n ∷ before) r.name ≡ false) rs
    → All (λ r. contains before r.name ≡ false) rs × (contains (names rs) n ≡ false)
All-new n before [] h = (tt, refl)
All-new n before (r ∷ rs) (new, h) =
    let (all, fresh) = All-new n before rs h in
    ((ground arith, all), ground (arith, eq_iff r.name n, eq_iff n r.name))

-- A registry of the configuration is one of the file: with its name, its URL and prefix without slashes at
-- the end of the one and around the other, and its flags, which a missing or another value leaves at false
-- for `primary` and at true for `verify_tls`.
pub record IsEntry (entry : Value) (r : RegistryConfig) : Type 0 where
  pub fields : Fields
  pub url : String
  pub prefix : String
  pub is_fields : entry ≡ obj fields
  pub name_is : get_or_null "name" fields ≡ str r.name
  pub url_is : (get_or_null "url" fields ≡ str url) × (r.url ≡ strip_right is_slash url)
  pub prefix_is :
      (get_or_null "repository_prefix" fields ≡ str prefix)
      × (r.repository_prefix ≡ strip is_slash prefix)
  pub primary_is : r.primary ≡ is_true (get_or_null "primary" fields)
  pub verify_tls_is : r.verify_tls ≡ is_not_false (get_or "verify_tls" (bool true) fields)
  pub ca_bundle_is : r.ca_bundle ≡ get_or_null "ca_bundle" fields
  pub auth_is : r.auth ≡ get_or "auth" (obj (field "type" (str "anonymous") end)) fields

-- The registries of the configuration are those of the file, in its order.
abbrev pub AreEntries : Items → RegistrySet → Type 0
AreEntries nil [] = Unit
AreEntries nil (r ∷ rs) = ⊥
AreEntries (cons entry entries) [] = ⊥
AreEntries (cons entry entries) (r ∷ rs) = IsEntry entry r × AreEntries entries rs

required_text-eq-ok : (v : Value) {s : String} → required_text v ≡ ok s → v ≡ str s
required_text-eq-ok (str t) h = on_else (t == "") _ (ok t) h λ _ e. ap str (ok_injective e)
required_text-eq-ok v h = absurd (cc)

mapping-eq-ok : (v : Value) {fs : Fields} → mapping v ≡ ok fs → v ≡ obj fs
mapping-eq-ok (obj x) h = ap obj (ok_injective h)
mapping-eq-ok v h = absurd (cc)

nonempty_list-eq-ok : (v : Value) {vs : Items} → nonempty_list v ≡ ok vs → v ≡ arr vs
nonempty_list-eq-ok (arr (cons v vs)) h = ap arr (ok_injective h)
nonempty_list-eq-ok v h = absurd (cc)

module _ (urlparse : String → Result Url) where
  load_entry-IsEntry :
      (index : ℕ) (before : List String) (entry : Value) {r : RegistryConfig}
      → load_entry urlparse index before entry ≡ ok r
      → IsEntry entry r
  unfolding load_entry
  load_entry-IsEntry index before (obj entry) {r} h =
      on_pass (not (only_keys entry_keys entry)) _ _ h λ _ h1.
        on_ok (required_text (get_or_null "name" entry)) _ h1 λ name n h2.
          on_ok (required_text (get_or_null "url" entry)) _ h2 λ url u h3.
            on_ok (required_text (get_or_null "repository_prefix" entry)) _ h3 λ prefix p h4.
              on_ok (urlparse url) _ h4 λ parsed _ h5.
                on_pass (not (has_plain_url parsed)) _ _ h5 λ _ h6.
                  on_pass (contains before name) _ _ h6 λ new h7.
                    on_unit (check_auth _) _ h7 λ _ h8.
                      subst (IsEntry (obj entry)) (ok_injective h8) (record {
                        fields = entry;
                        url = url;
                        prefix = prefix;
                        is_fields = refl;
                        name_is = required_text-eq-ok (get_or_null "name" entry) n;
                        url_is = (required_text-eq-ok (get_or_null "url" entry) u, refl);
                        prefix_is =
                            (required_text-eq-ok (get_or_null "repository_prefix" entry) p, refl);
                        primary_is = refl;
                        verify_tls_is = refl;
                        ca_bundle_is = refl;
                        auth_is = refl;
                      })
  load_entry-IsEntry index before entry h = absurd (cc)

  load_entries-AreEntries :
      (index : ℕ) (before : List String) (entries : Items) {rs : RegistrySet}
      → load_entries urlparse index before entries ≡ ok rs
      → AreEntries entries rs
  unfolding load_entries
  load_entries-AreEntries index before nil h = subst (AreEntries nil) (ok_injective h) tt
  load_entries-AreEntries index before (cons entry entries) h =
      on_ok (load_entry urlparse index before entry) _ h λ r e h1.
        on_ok (load_entries urlparse (index + 1) (r.name ∷ before) entries) _ h1 λ rest p h2.
          subst (AreEntries (cons entry entries)) (ok_injective h2) (
            load_entry-IsEntry index before entry e,
            load_entries-AreEntries (index + 1) (r.name ∷ before) entries p,
          )

  load_entry-new :
      (index : ℕ) (before : List String) (entry : Value) {r : RegistryConfig}
      → load_entry urlparse index before entry ≡ ok r
      → contains before r.name ≡ false
  unfolding load_entry
  load_entry-new index before (obj entry) {r} h =
      on_pass (not (only_keys entry_keys entry)) _ _ h λ _ h1.
        on_ok (required_text (get_or_null "name" entry)) _ h1 λ name _ h2.
          on_ok (required_text (get_or_null "url" entry)) _ h2 λ url _ h3.
            on_ok (required_text (get_or_null "repository_prefix" entry)) _ h3 λ prefix _ h4.
              on_ok (urlparse url) _ h4 λ parsed _ h5.
                on_pass (not (has_plain_url parsed)) _ _ h5 λ _ h6.
                  on_pass (contains before name) _ _ h6 λ new h7.
                    on_unit (check_auth _) _ h7 λ _ h8.
                      let same : name ≡ r.name = ap name_of h8 in
                      subst (λ n. contains before n ≡ false) same new
  load_entry-new index before null h = cc
  load_entry-new index before (bool b) h = cc
  load_entry-new index before (int n) h = cc
  load_entry-new index before (float x) h = cc
  load_entry-new index before (str s) h = cc
  load_entry-new index before (arr vs) h = cc
  load_entry-new index before other h = cc

  load_entries-new :
      (index : ℕ) (before : List String) (entries : Items) {rs : RegistrySet}
      → load_entries urlparse index before entries ≡ ok rs
      → All (λ r. contains before r.name ≡ false) rs × IsDistinct (names rs)
  unfolding load_entries
  load_entries-new index before nil {rs} h =
      let e : [] ≡ rs = cc in
      subst (λ xs. All (λ r. contains before r.name ≡ false) xs × IsDistinct (names xs)) e (tt, tt)
  load_entries-new index before (cons entry entries) {rs} h =
      on_ok (load_entry urlparse index before entry) _ h λ r e h1.
        on_ok (load_entries urlparse (index + 1) (r.name ∷ before) entries) _ h1 λ rest p h2.
          let (new, distinct) = load_entries-new (index + 1) (r.name ∷ before) entries p in
          let (all, fresh) = All-new r.name before rest new in
          let e' : r ∷ rest ≡ rs = cc in
          subst (λ xs. All (λ x. contains before x.name ≡ false) xs × IsDistinct (names xs)) e'
            ((load_entry-new index before entry e, all), (fresh, distinct))

secondaries_of_none : (rs : RegistrySet) → count_primary rs ≡ 0 → secondaries rs ≡ rs
unfolding secondaries
secondaries_of_none [] h = refl
secondaries_of_none (r ∷ rs) h = ground (arith, secondaries_of_none rs)

primary_true : (r : RegistryConfig) (rs : RegistrySet) → r.primary ≡ true → primary (r ∷ rs) ≡ ok r
unfolding primary
primary_true r rs e = rw e

primary_false :
    (r : RegistryConfig) (rs : RegistrySet) → r.primary ≡ false → primary (r ∷ rs) ≡ primary rs
unfolding primary
primary_false r rs e = rw e

secondaries-true :
    (r : RegistryConfig) (rs : RegistrySet)
    → r.primary ≡ true
    → secondaries (r ∷ rs) ≡ secondaries rs
unfolding secondaries
secondaries-true r rs e = rw e

secondaries-false :
    (r : RegistryConfig) (rs : RegistrySet)
    → r.primary ≡ false
    → secondaries (r ∷ rs) ≡ r ∷ secondaries rs
unfolding secondaries
secondaries-false r rs e = rw e

primary-perm :
    (rs : RegistrySet)
    → count_primary rs ≡ 1
    → (p : RegistryConfig) × (primary rs ≡ ok p) × (p.primary ≡ true) × Perm (p ∷ secondaries rs) rs
primary-perm [] h = absurd (ground arith)
primary-perm (r ∷ rs) h = elim (Bool-cases r.primary) [
  | inl e ↦
      let others : secondaries rs ≡ rs = secondaries_of_none rs (ground arith) in
      (
        r,
        primary_true r rs e,
        e,
        subst (λ xs. Perm (r ∷ xs) (r ∷ rs)) (sym (secondaries-true r rs e ∙ others))
            (Perm.refl (r ∷ rs)),
      )
  | inr e ↦
      let (p, found, is, perm) = primary-perm rs (ground arith) in
      (
        p,
        primary_false r rs e ∙ found,
        is,
        rw (secondaries-false r rs e)
            (Perm.trans (Perm.swap r p (secondaries rs)) (Perm.cons r perm)),
      )
]

counted_one : (rs : RegistrySet) → not (nat_eq (count_primary rs) 1) ≡ false → count_primary rs ≡ 1
counted_one rs h = ground arith

-- What a configuration is that was loaded
pub record IsLoaded (file : Option (Result Value)) (rs : RegistrySet) : Type 0 where
  pub raw : Fields
  pub entries : Items
  pub first : RegistryConfig
  pub file_is : file ≡ some (ok (obj raw))
  pub entries_are : get_or_null "registries" raw ≡ arr entries
  pub registries_are : AreEntries entries rs
  pub distinct : IsDistinct (map (λ r. r.name) rs)
  pub first_is : (primary rs ≡ ok first) × (first.primary ≡ true)
  pub others_are : Perm (first ∷ secondaries rs) rs

-- Whatever the file holds, a configuration that loads is a mapping, and its registries are the entries of the
-- file's `registries`, one for each and in their order, with their names, URLs, prefixes, flags and
-- credentials. They have different names, and exactly one is primary: `RegistrySet.primary` finds it without
-- a StopIteration, and the primary with the secondaries are all the registries, in some order.
pub load_registry_set-IsValid :
    (urlparse : String → Result Url) (file : Option (Result Value)) {rs : RegistrySet}
    → load_registry_set urlparse file ≡ ok rs
    → IsLoaded file rs
unfolding load_registry_set
load_registry_set-IsValid urlparse none h = cc
load_registry_set-IsValid urlparse (some loaded) {rs} h = on_ok loaded _ h λ content c h1.
    on_ok (mapping content) _ h1 λ raw m h2.
      on_pass (not (only_keys ("schema_version" ∷ "registries" ∷ []) raw)) _ _ h2 λ _ h3.
        on_pass (not (equals_one (get_or_null "schema_version" raw))) _ _ h3 λ _ h4.
          on_ok (nonempty_list (get_or_null "registries" raw)) _ h4 λ entries l h5.
            on_ok (load_entries urlparse 0 [] entries) _ h5 λ registries e h6.
              on_pass (not (nat_eq (count_primary registries) 1)) _ _ h6 λ one h7.
                let (first, found, is, others) =
                  primary-perm registries (counted_one registries one) in
                subst (IsLoaded (some loaded)) (ok_injective h7) (record {
                  raw = raw;
                  entries = entries;
                  first = first;
                  file_is = ap some (c ∙ ap (λ x. ok x) (mapping-eq-ok content m));
                  entries_are = nonempty_list-eq-ok (get_or_null "registries" raw) l;
                  registries_are = load_entries-AreEntries urlparse 0 [] entries e;
                  distinct = (load_entries-new urlparse 0 [] entries e).1;
                  first_is = (found, is);
                  others_are = others;
                })
