-- ===== src/Publish/Packed.antt =====
-- What `build_objects` packs of a kernel.so.
use k_dash.Base.{◌≡◌, refl, subst, ok, on_ok, ok_injective}
use k_dash.Json.{Value, obj}
use k_dash.External.{Bytes, Libraries}
use k_dash.Model.{BuildSpec}
use k_dash.Canonical.{canonical_json, digest_bytes, spec_key}
use k_dash.Artifact.{
  Codec, BuildObjects, build_objects, binary_archive, build_config_fields, manifest_value,
  build_type,
}

module _ (lib : Libraries) (codec : Codec) where
  abbrev pub IsPacked : (kernel_so : Bytes) → BuildObjects → Type 0
  IsPacked kernel_so o =
      (o.layer ≡ binary_archive codec kernel_so)
      × (canonical_json lib (obj o.config) ≡ ok o.config_bytes)
      × (o.digest ≡ digest_bytes lib o.manifest_bytes)

  pub build_objects-IsPacked :
      (spec : BuildSpec) (kernel_so : Bytes) (provenance dependencies cxx : Value)
      {o : BuildObjects}
      → build_objects lib codec spec kernel_so provenance dependencies cxx ≡ ok o
      → IsPacked kernel_so o
  unfolding build_objects
  build_objects-IsPacked spec kernel_so provenance dependencies cxx h =
      let layer = binary_archive codec kernel_so in
      on_ok (spec_key lib spec) _ h λ key _ h1.
        on_ok
          (canonical_json lib
            (obj (build_config_fields lib spec key kernel_so layer provenance dependencies cxx)))
          _ h1
          λ config_bytes e h2.
            on_ok
              (canonical_json lib (
                manifest_value lib build_type "application/vnd.k-dash.build.config.v1+json"
                  "application/vnd.k-dash.binary.v1.tar+zstd" config_bytes layer))
              _ h2
              λ manifest_bytes _ h3. subst (IsPacked kernel_so) (ok_injective h3) (refl, e, refl)
