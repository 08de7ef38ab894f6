-- ===== src/Publish/Reports.antt =====
-- What `publish_release` answers: the digests under the names of the registries and the BuildKeys.
use k_dash.Base.{
  some, contains, IsDistinct, arith, if◌then◌else◌, ◌≡◌, refl, ◌∙◌, ap, sym, subst, String, false,
  not, All, eq_iff, Bool-cases, inl, inr, raise_if-eq-ok, List, [], ◌∷◌, ◌==◌, Result, ok, raise_if,
  ok_injective,
}
use k_dash.Base.Exec.{lift, on_run}
use k_dash.Canonical.{build_tag}
use k_dash.Oci.{Client}
use k_dash.Cache.{find_dir}
use k_dash.Publish.Publishable.{keys_of}
use k_dash.Publish.Objects.{Clients, Materialized, Published, put_text}
use k_dash.Publish.Release.{release_tag, Plan, push_builds, push_client, push_all}
use k_dash.Publish.Pushes.{not-false}

-- The answer names the digest of the release for each registry that is pushed to, and then the digest of
-- each build for its BuildKey.
abbrev pub ReportsOf : Plan → Published → Client → Type 0
ReportsOf plan p c =
    (find_dir c.name p.registries ≡ some plan.release.digest)
    × All (λ (m : Materialized). find_dir m.key p.builds ≡ some m.digest) plan.builds

abbrev pub Reports : Plan → List Client → Published → Type 0
Reports plan cs p = (p.release_digest ≡ plan.release.digest) × All (ReportsOf plan p) cs

find_dir-put_text :
    (key value : String) (l : List (String × String))
    → find_dir key (put_text key value l) ≡ some value
find_dir-put_text key value [] = rw ((eq_iff key key).1 refl) refl
find_dir-put_text key value ((k, v) ∷ l) = elim (Bool-cases (k == key)) [
  | inl t ↦ rw t (rw ((eq_iff key key).1 refl) refl)
  | inr f ↦ rw f (rw f (find_dir-put_text key value l))
]

-- Another entry stays as it was.
find_dir-put_text_other :
    (key other value : String) (l : List (String × String))
    → (other == key) ≡ false
    → find_dir key (put_text other value l) ≡ find_dir key l
find_dir-put_text_other key other value [] d = rw d refl
find_dir-put_text_other key other value ((k, v) ∷ l) d = elim (Bool-cases (k == other)) [
  | inl t ↦
      let e : (k == key) ≡ false = subst (λ x. (x == key) ≡ false) (sym ((eq_iff k other).0 t)) d in
      rw t (rw d (rw e refl))
  | inr f ↦
      rw f (ap (λ x. if k == key then some v else x) (find_dir-put_text_other key other value l d))
]

-- Putting the same value again changes no answer.
find_dir-put_text_again :
    (key other value : String) (l : List (String × String))
    → find_dir key l ≡ some value
    → find_dir key (put_text other value l) ≡ some value
find_dir-put_text_again key other value l h = elim (Bool-cases (other == key)) [
  | inl t ↦
      subst (λ k. find_dir k (put_text other value l) ≡ some value) ((eq_iff other key).0 t)
        (find_dir-put_text other value l)
  | inr f ↦ find_dir-put_text_other key other value l f ∙ h
]

other-contains :
    (keys : List String) (k x : String)
    → contains (k ∷ keys) x ≡ false
    → ((k == x) ≡ false) × (contains keys x ≡ false)
other-contains keys k x h = ground (arith, eq_iff x k, eq_iff k x)

module _ {W : Type 0} (clients : Clients W) (plan : Plan) where
  -- Each build is named, and no other key is touched.
  push_builds-names :
      (ms : List Materialized) (c : Client) (builds out : List (String × String)) (w v : W)
      → IsDistinct (keys_of ms)
      → push_builds clients ms c builds w ≡ (ok out, v)
      → All (λ (m : Materialized). find_dir m.key out ≡ some m.digest) ms
        × ((k : String) → contains (keys_of ms) k ≡ false → find_dir k out ≡ find_dir k builds)
  unfolding push_builds
  push_builds-names [] c builds out w v d h = (
    tt,
    λ k _.
        ap (find_dir k)
          (sym (ok_injective (ap (λ (x : Result (List (String × String)) × W). x.0) h))),
  )
  push_builds-names (m ∷ ms) c builds out w v d h =
      on_run (lift (build_tag m.key)) _ w h λ tag w1 e1 h1.
        on_run (clients.push c tag m.config_bytes (m.layer ∷ []) m.manifest_bytes) _ w1 h1
          λ actual w2 e2 h2.
            on_run (lift (raise_if (not (actual == m.digest)) _)) _ w2 h2 λ _ w3 e3 h3.
              let agrees : actual ≡ m.digest = (eq_iff actual m.digest).0 (
                not-false (actual == m.digest) (
                  raise_if-eq-ok (not (actual == m.digest)) _
                    (ap (λ (x : Result (Unit {0}) × W). x.0) e3))) in
              let (named, others) =
                push_builds-names ms c (put_text m.key actual builds) out w3 v d.1 h3 in
              (
                (others m.key d.0 ∙ find_dir-put_text m.key actual builds ∙ ap some agrees, named),
                λ k e.
                    let (differs, later) = other-contains (keys_of ms) m.key k e in
                    others k later ∙ find_dir-put_text_other k m.key actual builds differs,
              )

  -- What one registry adds, and that what was reported stays
  push_client-ReportsOf :
      (c : Client) (results out : Published) (w v : W)
      → IsDistinct (keys_of plan.builds)
      → push_client clients plan c results w ≡ (ok out, v)
      → (out.release_digest ≡ results.release_digest)
        × ReportsOf plan out c
        × ((b : Client) → ReportsOf plan results b → ReportsOf plan out b)
  unfolding push_client
  push_client-ReportsOf c results out w v d h =
      on_run (push_builds clients plan.builds c results.builds) _ w h λ builds w1 e1 h1.
        on_run
          (clients.push c (release_tag plan.version) plan.release.config_bytes
            (plan.release.layer ∷ []) plan.release.manifest_bytes)
          _ w1 h1
          λ actual w2 e2 h2.
            on_run (lift (raise_if (not (actual == plan.release.digest)) _)) _ w2 h2 λ _ w3 e3 h3.
              let agrees : actual ≡ plan.release.digest = (eq_iff actual plan.release.digest).0 (
                not-false (actual == plan.release.digest) (
                  raise_if-eq-ok (not (actual == plan.release.digest)) _
                    (ap (λ (x : Result (Unit {0}) × W). x.0) e3))) in
              let named = (push_builds-names plan.builds c results.builds builds w w1 d e1).0 in
              subst
                (λ (o : Published).
                  (o.release_digest ≡ results.release_digest)
                  × ReportsOf plan o c
                  × ((b : Client) → ReportsOf plan results b → ReportsOf plan o b))
                (ok_injective (ap (λ (x : Result Published × W). x.0) h3))
                (
                  refl,
                  (find_dir-put_text c.name actual results.registries ∙ ap some agrees, named),
                  λ b r. (
                    subst
                        (λ x.
                          find_dir b.name (put_text c.name x results.registries)
                          ≡ some plan.release.digest)
                        (sym agrees)
                        (find_dir-put_text_again b.name c.name plan.release.digest
                          results.registries r.0),
                    named,
                  ),
                )

  push_all-ReportsOf :
      (cs : List Client) (results out : Published) (w v : W)
      → IsDistinct (keys_of plan.builds)
      → push_all clients plan cs results w ≡ (ok out, v)
      → (out.release_digest ≡ results.release_digest)
        × All (ReportsOf plan out) cs
        × ((b : Client) → ReportsOf plan results b → ReportsOf plan out b)
  unfolding push_all
  push_all-ReportsOf [] results out w v d h =
      subst
        (λ (o : Published).
          (o.release_digest ≡ results.release_digest)
          × Unit
          × ((b : Client) → ReportsOf plan results b → ReportsOf plan o b))
        (ok_injective (ap (λ (x : Result Published × W). x.0) h)) (refl, tt, λ b r. r)
  push_all-ReportsOf (c ∷ cs) results out w v d h =
      on_run (push_client clients plan c results) _ w h λ next w1 e1 h1.
        let (same, reported, kept) = push_client-ReportsOf c results next w w1 d e1 in
        let (same', rest, kept') = push_all-ReportsOf cs next out w1 v d h1 in
        (same' ∙ same, (kept' c reported, rest), λ b r. kept' b (kept b r))

  pub push_all-Reports :
      (cs : List Client) (results out : Published) (w v : W)
      → IsDistinct (keys_of plan.builds)
      → results.release_digest ≡ plan.release.digest
      → push_all clients plan cs results w ≡ (ok out, v)
      → Reports plan cs out
  push_all-Reports cs results out w v d e h =
      let (same, reported, _) = push_all-ReportsOf cs results out w v d h in (same ∙ e, reported)
