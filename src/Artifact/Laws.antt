-- ===== src/Artifact/Laws.antt =====
-- Round trip of the binary layer, and what a checked descriptor and a parsed blob say.
use k_dash.Base.{
  ◌≡◌, String, true, [], ◌∷◌, eq_iff, arith, ok, raise_if-eq-ok, ap, sym, Result-cases, inl, inr,
}
use k_dash.Json.{Value, null, bool, int, float, str, arr, obj, other, Fields, get_or_null}
use k_dash.External.{Bytes, Libraries}
use k_dash.Canonical.{digest_bytes, loads_no_duplicates}
use k_dash.Artifact.{
  Codec, IsLossless, kernel_member, binary_archive, extract_binary_archive, equals_text,
  verify_descriptor, parse_json_blob,
}

-- The kernel that goes into a binary layer comes out of it.
pub extract_binary_archive-binary_archive :
    (c : Codec) (kernel_so : Bytes)
    → IsLossless c
    → extract_binary_archive c (binary_archive c kernel_so) ≡ ok kernel_so
unfolding extract_binary_archive binary_archive
extract_binary_archive-binary_archive c kernel_so lossless = ground (
  arith,
  lossless.decompress-compress (c.write_tar (kernel_member kernel_so ∷ [])),
  lossless.read_tar-write_tar kernel_so,
)

pub equals_text-eq : (s : String) (v : Value) → equals_text s v ≡ true → v ≡ str s
equals_text-eq s (str t) h = ap str (sym ((eq_iff s t).0 h))
equals_text-eq s null h = cc
equals_text-eq s (bool b) h = cc
equals_text-eq s (int n) h = cc
equals_text-eq s (float x) h = cc
equals_text-eq s (arr vs) h = cc
equals_text-eq s (obj fs) h = cc
equals_text-eq s other h = cc

-- A descriptor that is verified names the digest of the payload.
pub verify_descriptor-eq-ok :
    (lib : Libraries) (stage : String) (d : Fields) (payload : Bytes)
    → verify_descriptor lib stage d payload ≡ ok tt
    → get_or_null "digest" d ≡ str (digest_bytes lib payload)
unfolding verify_descriptor
verify_descriptor-eq-ok lib stage d payload h =
    let passed = raise_if-eq-ok _ _ h in
    equals_text-eq (digest_bytes lib payload) (get_or_null "digest" d) (ground arith)

module _ (lib : Libraries) (stage : String) (content : Bytes) where
  pub parse_json_blob-eq-ok :
      {fs : Fields}
      → parse_json_blob lib stage content ≡ ok fs
      → loads_no_duplicates lib stage content ≡ ok (obj fs)
  unfolding parse_json_blob
  parse_json_blob-eq-ok {fs} h = elim (Result-cases (loads_no_duplicates lib stage content)) [
    | inl (v, e) ↦ ground arith
    | inr (x, e) ↦ absurd (ground arith)
  ]
