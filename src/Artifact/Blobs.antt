-- ===== src/Artifact/Blobs.antt =====
-- What `parse_json_blob` makes of any bytes.
use k_dash.Base.{
  ◌≡◌, refl, Error, ◌∙◌, sym, ◌⊎◌, inl, inr, String, Result, ok, err, raise, raise_python,
  name_error, artifact_integrity, Result-cases,
}
use k_dash.Json.{Value, null, bool, int, float, str, arr, obj, other, Fields}
use k_dash.External.{Bytes, Libraries, complete}
use k_dash.Canonical.{loads_no_duplicates}
use k_dash.Canonical.Duplicates.{NoDuplicates, loads_no_duplicates-eq-ok}
use k_dash.Artifact.{as_object, parse_json_blob}

-- A dict
abbrev pub IsObject : Value → Type 0
IsObject (obj fs) = Unit {0}
IsObject _ = ⊥

-- The bytes are a JSON text without repeated keys.
abbrev pub IsJson : Libraries → Bytes → Value → Type 0
IsJson lib content v = (lib.scan_json content ≡ complete v) × NoDuplicates v

-- The three outcomes: the dict, an error of integrity for another value, and a NameError for all other bytes
abbrev pub Outcome : (lib : Libraries) → (stage : String) → Bytes → Result Fields → Type 0
Outcome lib stage content r =
    ((fs : Fields) × IsJson lib content (obj fs) × (r ≡ ok fs))
    ⊎ ((v : Value) × IsJson lib content v
        × (IsObject v → ⊥)
        × (r ≡ raise artifact_integrity "artifact JSON must be an object" stage))
    ⊎ (((v : Value) → IsJson lib content v → ⊥) × (r ≡ raise_python name_error))

of_value :
    (lib : Libraries) (stage : String) (content : Bytes) (v : Value)
    → IsJson lib content v
    → Outcome lib stage content (as_object stage v)
of_value lib stage content (obj fs) h = inl (fs, h, refl)
of_value lib stage content null h = inr (inl (null, h, λ x. x, refl))
of_value lib stage content (bool b) h = inr (inl (bool b, h, λ x. x, refl))
of_value lib stage content (int n) h = inr (inl (int n, h, λ x. x, refl))
of_value lib stage content (float x) h = inr (inl (float x, h, λ y. y, refl))
of_value lib stage content (str s) h = inr (inl (str s, h, λ x. x, refl))
of_value lib stage content (arr vs) h = inr (inl (arr vs, h, λ x. x, refl))
of_value lib stage content other h = inr (inl (other, h, λ x. x, refl))

-- Of any bytes `parse_json_blob` returns the dict when they are the JSON text of one without repeated keys,
-- raises an ArtifactIntegrityError when they are the JSON text of another value without repeated keys, and
-- in all other cases, where the text is broken or repeats a key, a NameError.
pub parse_json_blob-Outcome :
    (lib : Libraries) (stage : String) (content : Bytes)
    → Outcome lib stage content (parse_json_blob lib stage content)
unfolding parse_json_blob
parse_json_blob-Outcome lib stage content =
    elim (Result-cases (loads_no_duplicates lib stage content)) [
      | inl (v, e) ↦
          rw e (of_value lib stage content v ((loads_no_duplicates-eq-ok lib stage content v).0 e))
      | inr (x, e) ↦ rw e (
          inr (
            inr
              (λ v h. err_ok (sym e ∙ (loads_no_duplicates-eq-ok lib stage content v).1 h), refl)))
    ]
  where
    err_ok : {v : Value} {x : Error} → err x ≡ ok v → ⊥
    err_ok h = cc
