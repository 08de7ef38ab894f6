-- ===== src/Tests/Documents.antt =====
-- Artifacts, JSON texts and archives.
use k_dash.Base.{
  ℕ, ◌≡◌, ◌≤◌, ◌↔◌, refl, String, ◌<>◌, count, List, [], ◌∷◌, true, false, some, ok, Result, raise,
  raise_python, contract, name_error, k_dash_error, All,
}
use k_dash.Json.{Value, int, arr, obj, nil, cons, end, field}
use k_dash.Json.Numbers.{pos}
use k_dash.External.{Bytes, complete}
use k_dash.Canonical.{
  loads_no_duplicates, apply_defaults, validate_i_json, canonical_json, build_key, build_tag,
}
use k_dash.Canonical.Duplicates.{NoDuplicates, loads_no_duplicates-eq-ok}
use k_dash.Canonical.Defaults.{apply_defaults_idem}
use k_dash.Canonical.Numbers.{IsIJson, validate_i_json_iff}
use k_dash.Canonical.BuildKey.{build_tag_injective, build_tag-build_key}
use k_dash.Artifact.{build_type, Codec, binary_archive, extract_binary_archive, parse_json_blob}
use k_dash.Artifact.Blobs.{Outcome, parse_json_blob-Outcome}
use k_dash.Artifact.Laws.{extract_binary_archive-binary_archive}
use k_dash.Oci.Methods.{pull}
use k_dash.Oci.Pull.{IsVerified, pull-IsVerified}
use k_dash.Oci.Content.{blobs, pull_unique}
use k_dash.Project.Extract.{Written, extract_source_archive}
use k_dash.Project.Safety.{IsInside, extract_source_archive-IsInside}
use k_dash.Tests.Fixtures.{
  libraries, libraries_free, hex_libraries, hex_libraries_hex, codec, codec_lossless, http, client,
  session, artifact,
}

pulled : (pull libraries http client "v1" build_type session).0 ≡ ok artifact
unfolding pull k_dash.Base.Text.strip_left k_dash.Artifact.parse_json_blob
    k_dash.Artifact.verify_descriptor k_dash.Canonical.loads_no_duplicates k_dash.Json.get_field
    k_dash.Json.set_field
pulled = refl

pull_unique_example : artifact ≡ artifact
pull_unique_example =
    pull_unique libraries http http client client "v1" "v1" build_type session session
      {a = artifact} {b = artifact} (libraries_free (blobs artifact) (blobs artifact)) pulled pulled
      refl

pull-IsVerified_example : IsVerified libraries build_type artifact
pull-IsVerified_example =
    pull-IsVerified libraries http client "v1" build_type session {a = artifact} pulled

abbrev version_one : Value
version_one = obj (field "protocol_version" (int (pos 1)) end)

loads_no_duplicates-eq-ok_example :
    (loads_no_duplicates libraries "args" (1 ∷ []) ≡ ok version_one)
    ↔ ((libraries.scan_json (1 ∷ []) ≡ complete version_one) × NoDuplicates version_one)
loads_no_duplicates-eq-ok_example = loads_no_duplicates-eq-ok libraries "args" (1 ∷ []) version_one

-- {"properties": {"block": {"default": 128}}}
abbrev schema : Value
schema =
    obj
      (field "properties" (obj (field "block" (obj (field "default" (int (pos 128)) end)) end)) end)

abbrev blocks : Value
blocks = obj (field "block" (int (pos 128)) end)

schema_distinct : NoDuplicates schema
unfolding NoDuplicates k_dash.Json.get_field
schema_distinct = ((refl, tt), (((refl, tt), (((refl, tt), (tt, tt)), tt)), tt))

filled : apply_defaults schema (obj end) ≡ ok blocks
unfolding apply_defaults k_dash.Json.get_field k_dash.Json.set_field
filled = refl

apply_defaults_idem_example : apply_defaults schema blocks ≡ ok blocks
apply_defaults_idem_example =
    apply_defaults_idem schema (obj end) {filled' = blocks} schema_distinct filled

-- 2^53, the first integer that is refused
abbrev too_large : Value
too_large = arr (cons (int (pos 9007199254740992)) nil)

validate_i_json_iff_example : (validate_i_json too_large ≡ ok tt) ↔ IsIJson too_large
validate_i_json_iff_example = validate_i_json_iff too_large

keyed : build_key libraries blocks ≡ ok "sha256:i,ii,"
unfolding build_key
keyed = refl

abbrev long_key : String
long_key = "sha256:e3b0c44298fc1c149afbf4c8996fb92427ae41e4649b934ca495991b7852b855"

abbrev long_tag : String
long_tag = "build-sha256-e3b0c44298fc1c149afbf4c8996fb92427ae41e4649b934ca495991b7852b855"

keyed_long : build_key hex_libraries blocks ≡ ok long_key
unfolding build_key
keyed_long = refl

build_tag-build_key_example :
    (content : Bytes) × (canonical_json hex_libraries blocks ≡ ok content)
    × (build_tag long_key ≡ ok ("build-sha256-" <> hex_libraries.sha256_hex content))
build_tag-build_key_example =
    build_tag-build_key hex_libraries blocks long_key hex_libraries_hex keyed_long

tagged : build_tag long_key ≡ ok long_tag
unfolding build_tag k_dash.Base.Text.strip_prefix
tagged = refl

build_tag_injective_example : (long_key ≡ long_key) × (count long_tag ≤ 128)
build_tag_injective_example = build_tag_injective long_key long_key long_tag tagged tagged

extract_binary_archive-binary_archive_example :
    extract_binary_archive codec (binary_archive codec (127 ∷ 69 ∷ [])) ≡ ok (127 ∷ 69 ∷ [])
extract_binary_archive-binary_archive_example =
    extract_binary_archive-binary_archive codec (127 ∷ 69 ∷ []) codec_lossless

parse_json_blob-Outcome_example :
    Outcome libraries "registry-config"
      (4 ∷ [])
      (parse_json_blob libraries "registry-config" (4 ∷ []))
parse_json_blob-Outcome_example = parse_json_blob-Outcome libraries "registry-config" (4 ∷ [])

-- An archive of one file in two directories.
abbrev sources : Codec
sources = record codec {
  read_tar = λ raw.
      some (record { name = "./csrc/axpy.cu"; is_file = true; mode = 0o644; content = raw } ∷ []);
}

abbrev unpacked : List Written
unpacked = record { path = "csrc" ∷ "axpy.cu" ∷ []; mode = 0o644; content = 7 ∷ [] } ∷ []

extracted : extract_source_archive sources (40 ∷ 7 ∷ []) ≡ ok unpacked
unfolding extract_source_archive k_dash.Base.Text.strip_prefix
extracted = refl

extract_source_archive-IsInside_example : All IsInside unpacked
extract_source_archive-IsInside_example =
    extract_source_archive-IsInside sources (40 ∷ 7 ∷ []) unpacked extracted
