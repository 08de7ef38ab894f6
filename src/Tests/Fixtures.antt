-- ===== src/Tests/Fixtures.antt =====
-- Stand-ins for hashlib, the JSON scanner, rfc8785, jsonschema, zstandard, tarfile and a registry.
use Prim.Native.Char.{char}
use k_dash.Base.{
  All, ℕ, zero, suc, ◌≡◌, refl, sym, ◌≢◌, code, arith, ap, ap₂, String, false, Option, none, some,
  inr, List, [], ◌∷◌, ◌==◌, ◌||◌, if◌then◌else◌, ok,
}
use k_dash.Json.{Value, null, int, str, arr, obj, nil, Fields, end, field, fields, items}
use k_dash.Json.Numbers.{pos}
use k_dash.External.{Bytes, Scan, complete, broken, Libraries, IsHex, NoCollision, NoCollisions}
use k_dash.Artifact.{oci_manifest, build_type, Codec, IsLossless, Member, kernel_member}
use k_dash.Oci.{Response, Http, Client, Session, PulledArtifact}

-- A digest that keeps the bytes: as many strokes as the byte says, and a comma.
abbrev pub strokes : ℕ → String → String
strokes zero s = String.◌∷◌ (char 44 tt) s
strokes (suc n) s = String.◌∷◌ (char 105 tt) (strokes n s)

abbrev pub tally : Bytes → String
tally [] = ""
tally (n ∷ ns) = strokes n (tally ns)

unfoldable rest_of : String → String
rest_of String.[] = ""
rest_of (String.◌∷◌ c s) = s

unfoldable front : String → ℕ
front String.[] = 0
front (String.◌∷◌ c s) = code c

front-strokes : (n : ℕ) (s : String) → front (strokes n s) ≢ 0
unfolding front
front-strokes zero s h = omega (arith, h)
front-strokes (suc n) s h = omega (arith, h)

commas_injective : (s t : String) → strokes zero s ≡ strokes zero t → s ≡ t
unfolding rest_of
commas_injective s t h = ap rest_of h

comma_no_stroke : (n : ℕ) (s t : String) → strokes zero s ≢ strokes (suc n) t
unfolding front
comma_no_stroke n s t h = let e : 44 ≡ 105 = ap front h in omega (arith, e)

stroke_less :
    (m n : ℕ) (s t : String) → strokes (suc m) s ≡ strokes (suc n) t → strokes m s ≡ strokes n t
unfolding rest_of
stroke_less m n s t h = ap rest_of h

strokes_injective : (m n : ℕ) (s t : String) → strokes m s ≡ strokes n t → (m ≡ n) × (s ≡ t)
strokes_injective zero zero s t h = (refl, commas_injective s t h)
strokes_injective zero (suc n) s t h = absurd (comma_no_stroke n s t h)
strokes_injective (suc m) zero s t h = absurd (comma_no_stroke m t s (sym h))
strokes_injective (suc m) (suc n) s t h =
    let (p, q) = strokes_injective m n s t (stroke_less m n s t h) in (ap suc p, q)

pub tally_injective : (a b : Bytes) → tally a ≡ tally b → a ≡ b
unfolding front
tally_injective [] [] h = refl
tally_injective [] (n ∷ b) h = absurd (front-strokes n (tally b) (ap front (sym h)))
tally_injective (m ∷ a) [] h = absurd (front-strokes m (tally a) (ap front h))
tally_injective (m ∷ a) (n ∷ b) h =
    let (p, q) = strokes_injective m n (tally a) (tally b) h in
    ap₂ (λ x xs. x ∷ xs) p (tally_injective a b q)

-- A blob by the digest of its bytes, and their number.
abbrev pub described : (media_type digest : String) → (size : ℕ) → Value
described media_type digest size = obj (
    fields (("mediaType", str media_type) ∷ ("digest", str digest) ∷ ("size", int (pos size)) ∷ []))

-- The bytes 3 are the text of a manifest whose config is 1 and whose layer is 2.
abbrev pub manifest_fields : Fields
manifest_fields = fields (
    ("schemaVersion", int (pos 2))
    ∷ ("mediaType", str oci_manifest)
    ∷ ("artifactType", str build_type)
    ∷ ("config", described "application/json" "sha256:i," 1)
    ∷ ("layers", arr (items (described "application/octet-stream" "sha256:ii," 1 ∷ [])))
    ∷ [])

abbrev pub scan : Bytes → Scan
scan content =
    if tally content == "i,"
    then complete (obj (field "protocol_version" (int (pos 1)) end))
    else if tally content == "iii,"
    then complete (obj manifest_fields)
    else if tally content == "iiii,"
    then complete (obj (field "a" null (field "a" null end)))
    else broken nil

abbrev pub libraries : Libraries
libraries = record {
  sha256_hex = tally;
  scan_json = scan;
  jcs = λ v. inr (1 ∷ 2 ∷ []);
  schema_error = λ schema v. none;
}

not_one : (x : Bytes) (ys : List Bytes) → All (λ y. NoCollision libraries x y) ys
not_one x [] = tt
not_one x (y ∷ ys) = (tally_injective x y, not_one x ys)

pub libraries_free : (xs ys : List Bytes) → NoCollisions libraries xs ys
libraries_free [] ys = tt
libraries_free (x ∷ xs) ys = (not_one x ys, libraries_free xs ys)

-- A digest of the right length for everything.
abbrev pub hex_libraries : Libraries
hex_libraries = record libraries {
  sha256_hex = λ content. "e3b0c44298fc1c149afbf4c8996fb92427ae41e4649b934ca495991b7852b855";
}

abbrev pub hex_libraries_hex : IsHex hex_libraries
hex_libraries_hex = record { count_hex = λ content. refl }

-- An archive of one kernel is its contents, and compression puts a byte in front.
abbrev pub decompress : Bytes → Option Bytes
decompress [] = none
decompress (x ∷ xs) = some xs

abbrev pub first_content : List Member → Bytes
first_content [] = []
first_content (m ∷ ms) = m.content

abbrev pub codec : Codec
codec = record {
  compress = λ raw. 40 ∷ raw;
  decompress = decompress;
  write_tar = first_content;
  read_tar = λ raw. some (kernel_member raw ∷ []);
}

abbrev pub codec_lossless : IsLossless codec
codec_lossless = record {
  decompress-compress = λ raw. refl;
  read_tar-write_tar = λ kernel_so. refl;
}

abbrev pub found : Bytes → Response
found content = record {
  status_code = 200;
  content = content;
  docker_content_digest = none;
  www_authenticate = none;
  location = none;
}

abbrev pub serve : String → Response
serve url =
    if url == "r/v2/k/manifests/v1" || url == "r/v2/k/manifests/sha256:iii,"
    then found (3 ∷ [])
    else if url == "r/v2/k/blobs/sha256:i,"
    then found (1 ∷ [])
    else if url == "r/v2/k/blobs/sha256:ii,"
    then found (2 ∷ [])
    else record (found []) { status_code = 404 }

-- The network counts the requests.
abbrev pub http : Http ℕ
http = record {
  send = λ request n. (some (serve request.url), suc n);
  offers_bearer = λ header. false;
  challenge = λ header. [];
  token_url = λ realm params. realm;
  json = λ content. ok null;
  quote = λ text. text;
  upload_url = λ base location digest. base;
}

abbrev pub client : Client
client = record { name = "main"; url = "r"; repository = "k"; basic_auth = none }

abbrev pub session : Session ℕ
session = record { token = none; world = 0 }

abbrev pub artifact : PulledArtifact
artifact = record {
  digest = "sha256:iii,";
  manifest = manifest_fields;
  manifest_bytes = 3 ∷ [];
  config = field "protocol_version" (int (pos 1)) end;
  config_bytes = 1 ∷ [];
  layers = (2 ∷ []) ∷ [];
}
