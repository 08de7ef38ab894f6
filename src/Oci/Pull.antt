-- ===== src/Oci/Pull.antt =====
-- What `pull` has verified when it returns, whatever the server answered.
use k_dash.Base.{
  refl, ◌≢◌, Bool, true, false, ◌||◌, ◌≡◌, ◌∙◌, sym, ap, subst, String, not, Option, none, List, [],
  ◌∷◌, eq_iff, nat_eq, arith, ok, Option-cases, inl, inr, on_ok, on_else, ok_injective, ◌<>◌,
}
use k_dash.Base.Exec.{on_step, on_lift}
use k_dash.Json.{Value, str, arr, obj, Items, nil, cons, Fields, get_or_null}
use k_dash.Artifact.{equals_text}
use k_dash.Artifact.Laws.{equals_text-eq}
use k_dash.Artifact.{oci_manifest}
use k_dash.External.{Bytes, Libraries}
use k_dash.Canonical.{digest_bytes}
use k_dash.Artifact.{parse_json_blob, verify_descriptor}
use k_dash.Oci.{
  get_method, Response, Http, Client, Session, PulledArtifact, Manifest, nonempty, check_advertised,
  is_success, read_manifest, read_blob, digest_of, layer_fields, descriptor_pair, descriptors,
}
use k_dash.Oci.Methods.{
  request, get_manifest, get_blob, get_described, get_layers, pull, repository_url,
}

check_advertised-eq-ok :
    (advertised : Option String) (computed : String) {d : String}
    → check_advertised advertised computed ≡ ok d
    → d ≡ computed
check_advertised-eq-ok advertised computed {d} h = elim (Option-cases (nonempty advertised)) [
  | inl e ↦ ground arith
  | inr (a, e) ↦ ground (arith, eq_iff a computed)
]

or_false : (a b : Bool) → (a || b) ≡ false → (a ≡ false) × (b ≡ false)
or_false true b h = cc
or_false false b h = (refl, h)

not-false : (a : Bool) → not a ≡ false → a ≡ true
not-false true h = refl
not-false false h = cc

descriptor_pair-eq-ok :
    (config layers : Value) {d : Fields} {vs : Items}
    → descriptor_pair config layers ≡ ok (d, vs)
    → (config ≡ obj d) × (layers ≡ arr vs) × (vs ≢ nil)
descriptor_pair-eq-ok (obj x) (arr (cons v vs)) h =
    let same = ok_injective h in
    (
      ap (λ (p : Fields × Items). obj p.0) same,
      ap (λ (p : Fields × Items). arr p.1) same,
      λ e. cons_nil (ap (λ (p : Fields × Items). p.1) same ∙ e),
    )
  where
    cons_nil : {u : Value} {us : Items} → cons u us ≡ nil → ⊥
    cons_nil e = cc
descriptor_pair-eq-ok config layers h = absurd (cc)

-- What the fields of a manifest are that has descriptors
descriptors-eq-ok :
    (artifact_type : String) (m : Fields) {d : Fields} {vs : Items}
    → descriptors artifact_type m ≡ ok (d, vs)
    → (get_or_null "mediaType" m ≡ str "application/vnd.oci.image.manifest.v1+json")
      × (get_or_null "artifactType" m ≡ str artifact_type)
      × (get_or_null "config" m ≡ obj d)
      × (get_or_null "layers" m ≡ arr vs)
      × (vs ≢ nil)
descriptors-eq-ok artifact_type m h =
    on_else
      (not (equals_text oci_manifest (get_or_null "mediaType" m))
        || not (equals_text artifact_type (get_or_null "artifactType" m)))
      _ _ h
      λ tests e.
        let (media, typed) =
          or_false (not (equals_text oci_manifest (get_or_null "mediaType" m)))
            (not (equals_text artifact_type (get_or_null "artifactType" m))) tests in
        let (config, layers, some_layer) =
          descriptor_pair-eq-ok (get_or_null "config" m) (get_or_null "layers" m) e in
        (
          equals_text-eq oci_manifest (get_or_null "mediaType" m) (not-false _ media),
          equals_text-eq artifact_type (get_or_null "artifactType" m) (not-false _ typed),
          config,
          layers,
          some_layer,
        )

module _ (lib : Libraries) where
  read_manifest-eq-ok :
      (r : Response) {m : Manifest}
      → read_manifest lib r ≡ ok m
      → (m.0 ≡ digest_bytes lib m.1) × (parse_json_blob lib "registry-manifest" m.1 ≡ ok m.2)
  unfolding read_manifest
  read_manifest-eq-ok r {m} h = on_else (nat_eq r.status_code 404) _ _ h λ _ h1.
      on_else (not (is_success r.status_code)) _ _ h1 λ _ h2.
        on_ok (check_advertised r.docker_content_digest (digest_bytes lib r.content)) _ h2 λ d e h3.
          on_ok (parse_json_blob lib "registry-manifest" r.content) _ h3 λ fs p h4.
            subst
              (λ (x : Manifest).
                (x.0 ≡ digest_bytes lib x.1)
                × (parse_json_blob lib "registry-manifest" x.1 ≡ ok x.2))
              (ok_injective h4)
              (check_advertised-eq-ok r.docker_content_digest (digest_bytes lib r.content) e, p)

  read_blob-eq-ok :
      (digest : String) (r : Response) {b : Bytes}
      → read_blob lib digest r ≡ ok b
      → digest_bytes lib b ≡ digest
  unfolding read_blob
  read_blob-eq-ok digest r {b} h = ground (arith, eq_iff (digest_bytes lib r.content) digest)

  abbrev pub LayersMatch : Items → List Bytes → Type 0
  LayersMatch nil [] = Unit
  LayersMatch nil (b ∷ bs) = ⊥
  LayersMatch (cons v vs) [] = ⊥
  LayersMatch (cons v vs) (b ∷ bs) =
      ((d : Fields) × (layer_fields v ≡ ok d) × (digest_of d ≡ ok (digest_bytes lib b)))
      × LayersMatch vs bs

  -- Every part of the artifact is fixed by a digest in the part above it, up to the artifact's own.
  pub record IsVerified (artifact_type : String) (a : PulledArtifact) : Type 0 where
    pub config_descriptor : Fields
    pub layer_descriptors : Items
    pub named : a.digest ≡ digest_bytes lib a.manifest_bytes
    pub parsed : parse_json_blob lib "registry-manifest" a.manifest_bytes ≡ ok a.manifest
    pub media_type_is :
        get_or_null "mediaType" a.manifest ≡ str "application/vnd.oci.image.manifest.v1+json"
    pub artifact_type_is : get_or_null "artifactType" a.manifest ≡ str artifact_type
    pub config_is : get_or_null "config" a.manifest ≡ obj config_descriptor
    pub layers_are : get_or_null "layers" a.manifest ≡ arr layer_descriptors
    pub some_layer : layer_descriptors ≢ nil
    pub described : descriptors artifact_type a.manifest ≡ ok (config_descriptor, layer_descriptors)
    pub config_digest : digest_of config_descriptor ≡ ok (digest_bytes lib a.config_bytes)
    pub config_parsed : parse_json_blob lib "registry-config" a.config_bytes ≡ ok a.config
    pub layers_match : LayersMatch layer_descriptors a.layers

  module _ {W : Type 0} (http : Http W) (client : Client) where
    get_blob-eq-ok :
        (digest : String) (s : Session W) {b : Bytes} {t : Session W}
        → get_blob lib http client digest s ≡ (ok b, t)
        → digest_bytes lib b ≡ digest
    unfolding get_blob
    get_blob-eq-ok digest s h =
        on_step
          (request lib http client get_method
            (repository_url lib http client ("blobs/" <> http.quote digest)) none)
          _ s (ap (λ x. x.0) h) λ response t p h1. read_blob-eq-ok digest response h1

    get_described-eq-ok :
        (stage : String) (d : Fields) (s : Session W) {b : Bytes}
        → (get_described lib http client stage d s).0 ≡ ok b
        → digest_of d ≡ ok (digest_bytes lib b)
    unfolding get_described get_blob
    get_described-eq-ok stage d s {b} h = on_lift (digest_of d) _ s h λ digest e h1.
        on_step (get_blob lib http client digest) _ s h1 λ payload t p h2.
          on_lift (verify_descriptor lib stage d payload) _ t h2 λ _ _ h3.
            let same : payload ≡ b = ok_injective h3 in
            e ∙ ap (λ x. ok x) (sym (get_blob-eq-ok digest s p) ∙ ap (digest_bytes lib) same)

    get_layers-match :
        (vs : Items) (s : Session W) {bs : List Bytes}
        → (get_layers lib http client vs s).0 ≡ ok bs
        → LayersMatch vs bs
    unfolding get_layers
    get_layers-match nil s {bs} h = let e : [] ≡ bs = ok_injective h in subst (LayersMatch nil) e tt
    get_layers-match (cons v vs) s {bs} h = on_lift (layer_fields v) _ s h λ d e h1.
        on_step (get_described lib http client "registry-layer" d) _ s h1 λ payload t p h2.
          on_step (get_layers lib http client vs) _ t h2 λ rest u q h3.
            subst (LayersMatch (cons v vs)) (ok_injective h3) (
              (d, e, get_described-eq-ok "registry-layer" d s (ap (λ x. x.0) p)),
              get_layers-match vs t (ap (λ x. x.0) q),
            )

    get_manifest-eq-ok :
        (reference : String) (s : Session W) {m : Manifest}
        → (get_manifest lib http client reference s).0 ≡ ok m
        → (m.0 ≡ digest_bytes lib m.1) × (parse_json_blob lib "registry-manifest" m.1 ≡ ok m.2)
    unfolding get_manifest
    get_manifest-eq-ok reference s h =
        on_step
          (request lib http client get_method
            (repository_url lib http client ("manifests/" <> http.quote reference)) none)
          _ s h λ response t p h1. read_manifest-eq-ok response h1

    -- Whatever the server answers, an artifact that `pull` returns has the digest of its manifest, an OCI
    -- image manifest with the artifact type that was asked for and some layer, and a config and layers with
    -- the digests that the manifest names.
    pub pull-IsVerified :
        (reference artifact_type : String) (s : Session W) {a : PulledArtifact}
        → (pull lib http client reference artifact_type s).0 ≡ ok a
        → IsVerified artifact_type a
    unfolding pull
    pull-IsVerified reference artifact_type s {a} h =
        on_step (get_manifest lib http client reference) _ s h λ (digest, bytes, manifest) t p h1.
          on_lift (descriptors artifact_type manifest) _ t h1 λ (d, vs) e h2.
            on_step (get_described lib http client "registry-config" d) _ t h2
              λ config_bytes u q h3.
                on_step (get_layers lib http client vs) _ u h3 λ payloads v r h4.
                  on_lift (parse_json_blob lib "registry-config" config_bytes) _ v h4 λ config c h5.
                    let (named, parsed) = get_manifest-eq-ok reference s (ap (λ x. x.0) p) in
                    let typed = descriptors-eq-ok artifact_type manifest e in
                    subst (IsVerified artifact_type) (ok_injective h5) (record {
                      config_descriptor = d;
                      layer_descriptors = vs;
                      named = named;
                      parsed = parsed;
                      media_type_is = typed.0;
                      artifact_type_is = typed.1;
                      config_is = typed.2;
                      layers_are = typed.3;
                      some_layer = typed.4;
                      described = e;
                      config_digest = get_described-eq-ok "registry-config" d t (ap (λ x. x.0) q);
                      config_parsed = c;
                      layers_match = get_layers-match vs u (ap (λ x. x.0) r);
                    })
