-- ===== src/Oci/Content.antt =====
-- A digest fixes the whole artifact, whichever registry serves it.
use text.Mathlib.TextLemmas.{append_cancel_left}
use k_dash.Base.{◌≡◌, ◌∙◌, refl, sym, ap, ap₂, subst, String, List, [], ◌∷◌, ok, ok_injective}
use k_dash.Json.{Items, nil, cons, Fields}
use k_dash.External.{Bytes, Libraries, NoCollision, NoCollisions}
use k_dash.Canonical.{digest_bytes}
use k_dash.Artifact.{parse_json_blob}
use k_dash.Oci.{Http, Client, Session, PulledArtifact, digest_of, descriptors}
use k_dash.Oci.Methods.{pull}
use k_dash.Oci.Pull.{LayersMatch, IsVerified, pull-IsVerified}

-- The byte strings of an artifact.
abbrev pub blobs : PulledArtifact → List Bytes
blobs a = a.manifest_bytes ∷ a.config_bytes ∷ a.layers

module _ (lib : Libraries) where
  digest_bytes-injective :
      (a b : Bytes) → NoCollision lib a b → digest_bytes lib a ≡ digest_bytes lib b → a ≡ b
  digest_bytes-injective a b free h = free (append_cancel_left "sha256:" _ _ h)

  described_same :
      (d : Fields) (a b : Bytes)
      → NoCollision lib a b
      → digest_of d ≡ ok (digest_bytes lib a)
      → digest_of d ≡ ok (digest_bytes lib b)
      → a ≡ b
  described_same d a b free p q = digest_bytes-injective a b free (ok_injective (sym p ∙ q))

  without_first :
      (xs ys : List Bytes) (y : Bytes) → NoCollisions lib xs (y ∷ ys) → NoCollisions lib xs ys
  without_first [] ys y h = tt
  without_first (x ∷ xs) ys y (h, hs) = (h.1, without_first xs ys y hs)

  LayersMatch-unique :
      (vs : Items) (xs bs : List Bytes)
      → NoCollisions lib xs bs
      → LayersMatch lib vs xs
      → LayersMatch lib vs bs
      → xs ≡ bs
  LayersMatch-unique nil [] [] free p q = refl
  LayersMatch-unique nil [] (b ∷ bs) free p q = absurd q
  LayersMatch-unique nil (a ∷ xs) bs free p q = absurd p
  LayersMatch-unique (cons v vs) [] bs free p q = absurd p
  LayersMatch-unique (cons v vs) (a ∷ xs) [] free p q = absurd q
  LayersMatch-unique (cons v vs) (a ∷ xs) (b ∷ bs) (free, frees) ((d, e, x), p) ((d', e', y), q) =
      let same : d' ≡ d = ok_injective (sym e' ∙ e) in
      ap₂ (λ h t. h ∷ t)
        (described_same d a b free.0 x (subst (λ z. digest_of z ≡ ok (digest_bytes lib b)) same y))
        (LayersMatch-unique vs xs bs (without_first xs bs b frees) p q)

  IsVerified-unique :
      (artifact_type : String) (a b : PulledArtifact)
      → NoCollisions lib (blobs a) (blobs b)
      → IsVerified lib artifact_type a
      → IsVerified lib artifact_type b
      → a.digest ≡ b.digest
      → a ≡ b
  IsVerified-unique artifact_type a b (free_manifest, (free_config, free_layers)) va vb same =
      let bytes : a.manifest_bytes ≡ b.manifest_bytes =
        digest_bytes-injective a.manifest_bytes b.manifest_bytes free_manifest.0
          (sym va.named ∙ same ∙ vb.named) in
      let manifest : a.manifest ≡ b.manifest =
        ok_injective
          (sym va.parsed ∙ ap (parse_json_blob lib "registry-manifest") bytes ∙ vb.parsed) in
      let pair : (va.config_descriptor, va.layer_descriptors)
          ≡ (vb.config_descriptor, vb.layer_descriptors) =
        ok_injective (sym va.described ∙ ap (descriptors artifact_type) manifest ∙ vb.described) in
      let config_bytes : a.config_bytes ≡ b.config_bytes =
        described_same va.config_descriptor a.config_bytes b.config_bytes free_config.1.0
          va.config_digest (ap (λ (p : Fields × Items). digest_of p.0) pair ∙ vb.config_digest) in
      let config : a.config ≡ b.config = ok_injective (
        sym va.config_parsed
        ∙ ap (parse_json_blob lib "registry-config") config_bytes
        ∙ vb.config_parsed) in
      let layers : a.layers ≡ b.layers =
        LayersMatch-unique va.layer_descriptors a.layers b.layers
          (without_first a.layers b.layers b.config_bytes
            (without_first a.layers (b.config_bytes ∷ b.layers) b.manifest_bytes free_layers))
          va.layers_match
          (subst (λ (p : Fields × Items). LayersMatch lib p.1 b.layers) (sym pair)
            vb.layers_match) in
      λ i. record {
        digest = same i;
        manifest = manifest i;
        manifest_bytes = bytes i;
        config = config i;
        config_bytes = config_bytes i;
        layers = layers i;
      }

-- Without a sha256 collision between their byte strings, two artifacts of one type that `pull` returns
-- under one digest are equal in manifest, config and layers, whichever two servers sent them, honest or
-- not.
pub pull_unique :
    {V W : Type 0} (lib : Libraries) (http : Http V) (http' : Http W) (client client' : Client)
    (reference reference' artifact_type : String) (s : Session V) (t : Session W)
    {a b : PulledArtifact}
    → NoCollisions lib (blobs a) (blobs b)
    → (pull lib http client reference artifact_type s).0 ≡ ok a
    → (pull lib http' client' reference' artifact_type t).0 ≡ ok b
    → a.digest ≡ b.digest
    → a ≡ b
pull_unique lib http http' client client' reference reference' artifact_type s t {a} {b} free p q =
    IsVerified-unique lib artifact_type a b free
      (pull-IsVerified lib http client reference artifact_type s p)
      (pull-IsVerified lib http' client' reference' artifact_type t q)
