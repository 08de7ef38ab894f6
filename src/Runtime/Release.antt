-- ===== src/Runtime/Release.antt =====
-- What a release that was pulled is.
use k_dash.Base.{
  ◌≡◌, ◌∙◌, refl, sym, ap, subst, String, Bool, true, false, not, ◌||◌, ◌==◌, eq_iff, Result, ok,
  err, on_else, on_ok, if-eq-ok, none,
}
use k_dash.Base.Exec.{Exec, on_step}
use k_dash.Json.{Value, str, obj, get_or_null}
use k_dash.External.{Bytes, Libraries}
use k_dash.Model.{RegistryConfig}
use k_dash.Canonical.{digest_bytes}
use k_dash.Artifact.{release_type, equals_text}
use k_dash.Artifact.Laws.{equals_text-eq}
use k_dash.Oci.{Http, Client, Session, PulledArtifact}
use k_dash.Oci.Pull.{IsVerified, pull-IsVerified}
use k_dash.Cache.{get_value, get_source}
use k_dash.Runtime.{
  Credentials, client_of, with_client, first_layer, check_release, pull_release, oci_registries,
}

-- A release of one kernel whose first layer is the source that its config names.
pub record IsRelease (lib : Libraries) (kernel digest : String) (a : PulledArtifact) : Type 0 where
  pub source : Value
  pub layer : Bytes
  pub digest_is : a.digest ≡ digest
  pub kernel_is : get_or_null "kernel" a.config ≡ str kernel
  pub has_source : get_source (obj a.config) ≡ ok source
  pub layer_is : first_layer a.layers ≡ ok layer
  pub source_is : get_value "digest" source ≡ ok (str (digest_bytes lib layer))

both_true : (a b : Bool) → (not a || not b) ≡ false → (a ≡ true) × (b ≡ true)
both_true true true h = (refl, refl)
both_true true false h = cc
both_true false b h = cc

check_release-IsRelease :
    (lib : Libraries) (kernel digest : String) (artifact : PulledArtifact) {a : PulledArtifact}
    → check_release lib kernel digest artifact ≡ ok a
    → (artifact ≡ a) × IsRelease lib kernel digest artifact
unfolding check_release
check_release-IsRelease lib kernel digest artifact {a} h =
    on_else
      (not (artifact.digest == digest)
        || not (equals_text kernel (get_or_null "kernel" artifact.config)))
      _ _ h
      λ same h1. on_ok (get_source (obj artifact.config)) _ h1 λ source e1 h2.
        on_ok (get_value "digest" source) _ h2 λ expected e2 h3.
          on_ok (first_layer artifact.layers) _ h3 λ layer e3 h4.
            let (t, e) = if-eq-ok (equals_text (digest_bytes lib layer) expected) artifact _ h4 in
            let (x, y) =
              both_true (artifact.digest == digest)
                (equals_text kernel (get_or_null "kernel" artifact.config)) same in
            (
              sym e,
              record {
                source = source;
                layer = layer;
                digest_is = (eq_iff artifact.digest digest).0 x;
                kernel_is = equals_text-eq kernel (get_or_null "kernel" artifact.config) y;
                has_source = e1;
                layer_is = e3;
                source_is =
                    e2 ∙ ap (λ v. ok v) (equals_text-eq (digest_bytes lib layer) expected t);
              },
            )

with_client-eq-ok {ℓ κ} :
    {W : Type 0} {A : Type ℓ} {R : Type κ} (client : Result Client)
    (call : Client → Exec (Session W) A) (w : W) {a : A}
    → (with_client client call w).0 ≡ ok a
    → ((c : Client) (s : Session W) → client ≡ ok c → (call c s).0 ≡ ok a → R)
    → R
with_client-eq-ok (ok c) call w h k = k c (record { token = none; world = w }) refl h
with_client-eq-ok (err e) call w h k = cc

-- A release that `pull_release` returns through the OCI client has the digest that was asked for, is
-- verified down to its layers, belongs to the kernel, and its first layer is the source its config names.
pub pull_release-IsRelease :
    {W : Type 0} (lib : Libraries) (http : Http W) (credentials : Credentials) (r : RegistryConfig)
    (kernel digest : String) (w : W) {a : PulledArtifact}
    → (pull_release lib (oci_registries lib http credentials) r kernel digest w).0 ≡ ok a
    → IsVerified lib release_type a × IsRelease lib kernel digest a
unfolding pull_release
pull_release-IsRelease lib http credentials r kernel digest w {a} h =
    let net = oci_registries lib http credentials in
    on_step (net.pull r kernel digest release_type) _ w h λ artifact v e h1.
      let (same, release) = check_release-IsRelease lib kernel digest artifact h1 in
      let verified : IsVerified lib release_type artifact =
        with_client-eq-ok (client_of credentials r kernel) _ w (ap (λ x. x.0) e)
          λ client s _ pulled. pull-IsVerified lib http client digest release_type s pulled in
      subst (λ x. IsVerified lib release_type x × IsRelease lib kernel digest x) same
        (verified, release)
