-- ===== src/Canonical/BuildKey.antt =====
-- The BuildKey and the registry tag made of it.
use text.Mathlib.TextLemmas.{length-append, append_cancel_left}
use k_dash.Base.{
  ◌⊎◌, inr, inl, [], ◌∷◌, ok_injective, on_unit, ℕ, ◌+◌, ◌≤◌, ◌≡◌, ◌∙◌, sym, ap, String, ◌<>◌,
  count, arith, ok, >>=-eq-ok, Option-cases, inl, inr,
}
use k_dash.Base.Text.{strip_prefix, strip_prefix-append, append-strip_prefix}
use k_dash.Json.{Value, int, str, obj, Fields, fields, get_or_null}
use k_dash.Json.Numbers.{pos}
use k_dash.Model.{BuildSpec}
use k_dash.External.{Bytes, Libraries, complete, IsHex}
use k_dash.Canonical.{encoded, validate_i_json, canonical_json, digest_bytes, build_key, build_tag}

build_tag-append :
    (hex : String) → count hex ≡ 64 → build_tag ("sha256:" <> hex) ≡ ok ("build-sha256-" <> hex)
unfolding build_tag
build_tag-append hex h =
    let n : count ("sha256:" <> hex) ≡ 71 = length-append "sha256:" hex ∙ ap (λ (k : ℕ). 7 + k) h in
    ground (arith, strip_prefix-append "sha256:" hex, n)

-- Inversion of `build_tag`.
build_tag-eq-ok :
    (key : String) {tag : String}
    → build_tag key ≡ ok tag
    → (hex : String) × (key ≡ "sha256:" <> hex) × (count key ≡ 71) × (tag ≡ "build-sha256-" <> hex)
unfolding build_tag
build_tag-eq-ok key {tag} h = elim (Option-cases (strip_prefix "sha256:" key)) [
  | inl e ↦ absurd (ground arith)
  | inr (hex, e) ↦ (hex, append-strip_prefix "sha256:" key hex e, ground arith, ground arith)
]

-- Two BuildKeys with one tag are one BuildKey, and a tag is short enough for a registry.
pub build_tag_injective :
    (a b tag : String) → build_tag a ≡ ok tag → build_tag b ≡ ok tag → (a ≡ b) × (count tag ≤ 128)
build_tag_injective a b tag p q =
    let (x, ax, n, tx) = build_tag-eq-ok a p in
    let (y, by, m, ty) = build_tag-eq-ok b q in
    let same : x ≡ y = append_cancel_left "build-sha256-" x y (sym tx ∙ ty) in
    (
      ax ∙ ap (λ t. "sha256:" <> t) same ∙ sym by,
      omega (
        arith,
        ap count tx,
        length-append "build-sha256-" x,
        ap count ax,
        length-append "sha256:" x,
        n,
      ),
    )

module _ (lib : Libraries) where
  -- Every BuildKey that `build_key` computes has a tag: `build_tag` raises for none of them.
  pub build_tag-build_key :
      (value : Value) (key : String)
      → IsHex lib
      → build_key lib value ≡ ok key
      → (content : Bytes) × (canonical_json lib value ≡ ok content)
        × (build_tag key ≡ ok ("build-sha256-" <> lib.sha256_hex content))
  unfolding build_key
  build_tag-build_key value key hex h =
      let (content, p, q) = >>=-eq-ok (canonical_json lib value) _ h in
      let e : digest_bytes lib content ≡ key = cc in
      (content, p, rw (← e) (build_tag-append (lib.sha256_hex content) (hex.count_hex content)))

  encoded-eq-ok : (o : String ⊎ Bytes) {bytes : Bytes} → encoded lib o ≡ ok bytes → o ≡ inr bytes
  encoded-eq-ok (inl message) h = cc
  encoded-eq-ok (inr content) h = ap inr (ok_injective h)

  pub canonical_json-eq-ok :
      (v : Value) {bytes : Bytes} → canonical_json lib v ≡ ok bytes → lib.jcs v ≡ inr bytes
  unfolding canonical_json
  canonical_json-eq-ok v h = on_unit (validate_i_json v) _ h λ _ h1. encoded-eq-ok (lib.jcs v) h1

-- RFC 8785: the JSON that is written of a dict is scanned as a dict again, in which each key has a value of
-- the same canonical form, and different texts have different forms.
pub record IsCanonical (lib : Libraries) : Type 0 where
  pub scan-jcs :
      (fs : Fields) (bytes : Bytes)
      → lib.jcs (obj fs) ≡ inr bytes
      → (gs : Fields) × (lib.scan_json bytes ≡ complete (obj gs))
        × ((k : String) → lib.jcs (get_or_null k gs) ≡ lib.jcs (get_or_null k fs))
  pub jcs_injective : (s t : String) → lib.jcs (str s) ≡ lib.jcs (str t) → s ≡ t

-- The members of `BuildSpec.to_dict`
abbrev spec_fields : BuildSpec → Fields
spec_fields s = fields (
    ("buildspec_version", int (pos s.buildspec_version))
    ∷ ("release_digest", str s.release_digest)
    ∷ ("args", s.args)
    ∷ ("target", s.target)
    ∷ [])
