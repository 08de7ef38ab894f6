-- ===== src/Artifact.antt =====
-- artifact.py: OCI build artifacts. tarfile and zstandard are parameters, as a codec of members.
pub mod Laws
pub mod Blobs
use k_dash.Base.{
  ℕ, zero, suc, ◌≡◌, String, Bool, true, false, not, ◌&&◌, ◌||◌, Option, none, some, List, [], ◌∷◌,
  ◌==◌, nat_eq, length, if◌then◌else◌, Result, ok, err, raise, raise_if, raise_python, ◌>>=◌, ◌>>◌,
  Error, k_dash_error, artifact_integrity, tar_error, name_error,
}
use k_dash.Json.{
  Value, null, bool, int, float, str, arr, obj, other, Items, nil, cons, Fields, end, field, odd,
  fields, items, get_field, get_or_null,
}
use k_dash.Json.Numbers.{pos, equals_float}
use k_dash.External.{Bytes, Libraries}
use k_dash.Model.{BuildSpec, spec_dict}
use k_dash.Canonical.{canonical_json, digest_bytes, build_key, spec_key, loads_no_duplicates}

abbrev pub oci_manifest : String
oci_manifest = "application/vnd.oci.image.manifest.v1+json"

abbrev pub release_type : String
release_type = "application/vnd.k-dash.release.v1"

abbrev pub build_type : String
build_type = "application/vnd.k-dash.build.v1"

-- A member of a tar archive: regular files have contents.
pub record Member : Type 0 where
  pub name : String
  pub is_file : Bool
  pub mode : ℕ
  pub content : Bytes

-- zstandard, and reading and writing of a tar stream; `none` where they raise.
pub record Codec : Type 0 where
  pub compress : Bytes → Bytes
  pub decompress : Bytes → Option Bytes
  pub write_tar : List Member → Bytes
  pub read_tar : Bytes → Option (List Member)

-- The only member of a binary layer.
abbrev pub kernel_member : Bytes → Member
kernel_member kernel_so = record {
  name = "kernel.so";
  is_file = true;
  mode = 0o755;
  content = kernel_so;
}

-- What is compressed is decompressed, and an archive of one kernel is read back.
pub record IsLossless (c : Codec) : Type 0 where
  pub decompress-compress : (raw : Bytes) → c.decompress (c.compress raw) ≡ some raw
  pub read_tar-write_tar :
      (kernel_so : Bytes)
      → c.read_tar (c.write_tar (kernel_member kernel_so ∷ []))
        ≡ some (kernel_member kernel_so ∷ [])

-- The name is "kernel.so" where the test for an absolute path is reached, so that test never holds.
abbrev pub single_kernel : List Member → Result Bytes
single_kernel (m ∷ []) =
    if not (m.name == "kernel.so") || not m.is_file
    then raise artifact_integrity "binary layer must contain only kernel.so" "build-artifact"
    else ok m.content
single_kernel _ =
    raise artifact_integrity "binary layer must contain only kernel.so" "build-artifact"

module _ (c : Codec) where
  unfoldable pub binary_archive : Bytes → Bytes
  binary_archive kernel_so = c.compress (c.write_tar (kernel_member kernel_so ∷ []))

  abbrev pub read_members : Bytes → Result (List Member)
  read_members raw = elim (c.read_tar raw) [ none ↦ raise_python tar_error | some ms ↦ ok ms ]

  abbrev pub decompressed : Bytes → Error → Result Bytes
  decompressed payload e = elim (c.decompress payload) [ none ↦ err e | some raw ↦ ok raw ]

  unfoldable pub extract_binary_archive : Bytes → Result Bytes
  extract_binary_archive payload = do
    raw ←
        decompressed payload
          (k_dash_error artifact_integrity "invalid binary compression" "build-artifact")
    members ← read_members raw
    single_kernel members

-- `{"digest": digest_bytes(data), "size": len(data)}`, after an optional media type
abbrev pub size_of : Bytes → Value
size_of content = int (pos (length content))

-- What `build_objects` returns.
pub record BuildObjects : Type 0 where
  pub config : Fields
  pub config_bytes : Bytes
  pub layer : Bytes
  pub manifest_bytes : Bytes
  pub digest : String

-- The handler names `ContractError`, which artifact.py does not import: evaluating it raises.
abbrev pub or_name_error : Result Value → Result Value
or_name_error (ok v) = ok v
or_name_error (err e) = raise_python name_error

abbrev pub as_object : (stage : String) → Value → Result Fields
as_object stage (obj fs) = ok fs
as_object stage _ = raise artifact_integrity "artifact JSON must be an object" stage

-- `n == v` for a natural number; `True` is 1 and `False` is 0, and a float may hold the number.
abbrev pub equals_nat : ℕ → Value → Bool
equals_nat n (int (pos m)) = nat_eq n m
equals_nat n (bool true) = nat_eq n 1
equals_nat n (bool false) = nat_eq n 0
equals_nat n (float x) = equals_float n x
equals_nat n _ = false

abbrev pub equals_text : String → Value → Bool
equals_text s (str t) = s == t
equals_text s _ = false

module _ (lib : Libraries) where
  abbrev pub descriptor : (media_type : String) → Bytes → Fields
  descriptor media_type content = fields (
      ("mediaType", str media_type)
      ∷ ("digest", str (digest_bytes lib content))
      ∷ ("size", size_of content)
      ∷ [])

  abbrev pub build_config_fields :
      BuildSpec
      → (key : String) → (kernel_so layer : Bytes) → (provenance dependencies cxx : Value) → Fields
  build_config_fields spec key kernel_so layer provenance dependencies cxx = fields (
      ("protocol_version", int (pos 1))
      ∷ ("release_digest", str spec.release_digest)
      ∷ ("buildspec", spec_dict spec)
      ∷ ("build_key", str key)
      ∷ ("provenance", provenance)
      ∷ ("host_dependencies", dependencies)
      ∷ ("cxx_runtime", cxx)
      ∷ ("kernel_so_digest", str (digest_bytes lib kernel_so))
      ∷ (
        "binary",
        obj (fields (("digest", str (digest_bytes lib layer)) ∷ ("size", size_of layer) ∷ [])),
      )
      ∷ [])

  abbrev pub manifest_value :
      (artifact_type config_type layer_type : String) → (config layer : Bytes) → Value
  manifest_value artifact_type config_type layer_type config layer = obj (
      fields (
        ("schemaVersion", int (pos 2))
        ∷ ("mediaType", str oci_manifest)
        ∷ ("artifactType", str artifact_type)
        ∷ ("config", obj (descriptor config_type config))
        ∷ ("layers", arr (items (obj (descriptor layer_type layer) ∷ [])))
        ∷ []))

  unfoldable pub build_objects :
      Codec
      → BuildSpec
      → (kernel_so : Bytes) → (provenance host_dependencies cxx_runtime : Value)
      → Result BuildObjects
  unfolding binary_archive
  build_objects c spec kernel_so provenance dependencies cxx = do
    key ← spec_key lib spec
    let layer = binary_archive c kernel_so
    let config = build_config_fields spec key kernel_so layer provenance dependencies cxx
    config_bytes ← canonical_json lib (obj config)
    manifest_bytes ← canonical_json lib (
        manifest_value build_type "application/vnd.k-dash.build.config.v1+json"
          "application/vnd.k-dash.binary.v1.tar+zstd" config_bytes layer)
    ok (record {
      config = config;
      config_bytes = config_bytes;
      layer = layer;
      manifest_bytes = manifest_bytes;
      digest = digest_bytes lib manifest_bytes;
    })

  unfoldable pub parse_json_blob : (stage : String) → Bytes → Result Fields
  parse_json_blob stage content = do
    value ← or_name_error (loads_no_duplicates lib stage content)
    as_object stage value

  unfoldable pub verify_descriptor : (stage : String) → Fields → Bytes → Result (Unit {0})
  verify_descriptor stage d payload =
      raise_if
        (not (equals_text (digest_bytes lib payload) (get_or_null "digest" d))
          || not (equals_nat (length payload) (get_or_null "size" d)))
        (k_dash_error artifact_integrity "descriptor digest or size mismatch" stage)
