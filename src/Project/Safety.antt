-- ===== src/Project/Safety.antt =====
-- Unpacking never leaves the destination.
use k_dash.Base.{
  ◌%◌, ◌≡◌, ◌≢◌, refl, sym, String, Char, code, Bool, true, false, not, ◌||◌, List, [], ◌∷◌, ◌==◌,
  eq_iff, nat_eq, contains, All, arith, if◌then◌else◌, ok, on_ok, on_pass, ok_injective, on_else,
  subst, Bool-cases, inl, inr,
}
use k_dash.Base.Text.{AllChars}
use k_dash.External.{Bytes}
use k_dash.Artifact.{Codec, Member}
use k_dash.Project.Extract.{
  split_char, split_slash, drop_trivial, relative_parts, parts, Written, is_blocked, overwrite,
  same_path, is_empty_path, write_file, is_absolute, is_unsafe, extract_members,
  extract_source_archive, decompress_source, source_members,
}

abbrev pub NoSlash : String → Type 0
NoSlash s = AllChars (λ c. code c ≢ b'/') s

-- A component that names an entry of the directory that it is joined to.
abbrev pub IsComponent : String → Type 0
IsComponent p = (p ≢ "") × (p ≢ ".") × (p ≢ "..") × NoSlash p

-- What is known of every file below the destination.
abbrev pub IsInside : Written → Type 0
IsInside w = (w.path ≢ []) × All IsComponent w.path

split_char-NoSlash : (c : Char) (ps : List String) → All NoSlash ps → All NoSlash (split_char c ps)
split_char-NoSlash c [] h = tt
split_char-NoSlash c (p ∷ ps) h = elim (Bool-cases (nat_eq (code c) b'/')) [
  | inl t ↦ rw t (tt, h)
  | inr f ↦ rw f ((ground arith, h.0), h.1)
]

split_slash-NoSlash : (s : String) → All NoSlash (split_slash s)
split_slash-NoSlash String.[] = (tt, tt)
split_slash-NoSlash (String.◌∷◌ c s) = split_char-NoSlash c (split_slash s) (split_slash-NoSlash s)

or_false : (a b : Bool) → (a || b) ≡ false → (a ≡ false) × (b ≡ false)
or_false true b h = cc
or_false false b h = (refl, h)

drop_trivial-IsComponent :
    (ps : List String)
    → All NoSlash ps
    → contains (drop_trivial ps) ".." ≡ false
    → All IsComponent (drop_trivial ps)
drop_trivial-IsComponent [] h d = tt
drop_trivial-IsComponent (p ∷ ps) h d = elim (Bool-cases (p == "" || p == ".")) [
  | inl t ↦ rw t (
      drop_trivial-IsComponent ps h.1 (
        subst (λ b. contains (if b then drop_trivial ps else p ∷ drop_trivial ps) ".." ≡ false) t
          d))
  | inr f ↦
      let rest : contains (p ∷ drop_trivial ps) ".." ≡ false =
        subst (λ b. contains (if b then drop_trivial ps else p ∷ drop_trivial ps) ".." ≡ false) f
          d in
      let (a, b) = or_false (".." == p) (contains (drop_trivial ps) "..") rest in
      let (x, y) = or_false (p == "") (p == ".") f in
      rw f (
        (
          (
            ground (arith, eq_iff p ""),
            ground (arith, eq_iff p "."),
            λ e. ground (arith, eq_iff ".." p, e),
            h.0,
          ),
          drop_trivial-IsComponent ps h.1 b,
        ))
]

parts-relative : (name : String) → is_absolute name ≡ false → parts name ≡ relative_parts name
parts-relative name h = rw h refl

parts-IsComponent :
    (name : String)
    → is_absolute name ≡ false
    → contains (parts name) ".." ≡ false
    → All IsComponent (parts name)
parts-IsComponent name relative h =
    let same = parts-relative name relative in
    subst (All IsComponent) (sym same) (
      drop_trivial-IsComponent (split_slash name) (split_slash-NoSlash name)
        (subst (λ ps. contains ps ".." ≡ false) same h))

overwrite-IsInside :
    (f : Written) (ws : List Written) → IsInside f → All IsInside ws → All IsInside (overwrite f ws)
overwrite-IsInside f [] p h = (p, tt)
overwrite-IsInside f (w ∷ ws) p h = elim (Bool-cases (same_path f.path w.path)) [
  | inl t ↦ rw t (p, h.1)
  | inr e ↦ rw e (h.0, overwrite-IsInside f ws p h.1)
]

filled : (ps : List String) → is_empty_path ps ≡ false → ps ≢ []
filled [] h e = cc
filled (p ∷ ps) h e = cc

write_file-IsInside :
    (f : Written) (ws vs : List Written)
    → All IsComponent f.path
    → All IsInside ws
    → write_file f ws ≡ ok vs
    → All IsInside vs
write_file-IsInside f ws vs p h e =
    on_else (is_empty_path f.path || is_blocked f.path ws) _ _ e λ g k.
      let (a, b) = or_false (is_empty_path f.path) (is_blocked f.path ws) g in
      subst (All IsInside) (ok_injective k) (overwrite-IsInside f ws (filled f.path a, p) h)

safe_parts : (m : Member) → is_unsafe m ≡ false → All IsComponent (parts m.name)
safe_parts m h =
    let (a, b) = or_false (is_absolute m.name || contains (parts m.name) "..") (not m.is_file) h in
    let (c, d) = or_false (is_absolute m.name) (contains (parts m.name) "..") a in
    parts-IsComponent m.name c d

extract_members-IsInside :
    (ms : List Member) (ws vs : List Written)
    → All IsInside ws
    → extract_members ms ws ≡ ok vs
    → All IsInside vs
unfolding extract_members
extract_members-IsInside [] ws vs h e = subst (All IsInside) (ok_injective e) h
extract_members-IsInside (m ∷ ms) ws vs h e = on_pass (is_unsafe m) _ _ e λ safe e1.
    on_ok (write_file (record { path = parts m.name; mode = m.mode % 512; content = m.content }) ws)
      _ e1
      λ us e2 e3.
        extract_members-IsInside ms us vs (write_file-IsInside _ ws us (safe_parts m safe) h e2) e3

-- Whatever an archive holds, if it is unpacked, then every file that was written has a nonempty
-- path below the destination, no part of which is empty, "." or "..", or has a slash.
pub extract_source_archive-IsInside :
    (c : Codec) (payload : Bytes) (ws : List Written)
    → extract_source_archive c payload ≡ ok ws
    → All IsInside ws
unfolding extract_source_archive
extract_source_archive-IsInside c payload ws h =
    on_ok (decompress_source c payload) _ h λ raw h1 h2.
      on_ok (source_members c raw) _ h2 λ ms h3 h4. extract_members-IsInside ms [] ws tt h4
