-- ===== src/Publish/Pushes.antt =====
-- What is pushed, and in which order.
use mathlib.Core.List.{append-nil, append_assoc}
use k_dash.Base.{
  ◌≡◌, refl, ◌∙◌, ap, sym, ap₂, String, ◌<>◌, Bool, true, false, not, ◌||◌, List, [], ◌∷◌, ◌++◌,
  map, ◌==◌, Result, ok, raise_if, on_else, ok_injective, nat_eq, count,
}
use k_dash.Base.Exec.{pure, lift, on_run}
use k_dash.Base.Text.{remove_prefix, starts_with}
use k_dash.External.{Bytes}
use k_dash.Canonical.{build_tag}
use k_dash.Oci.{Client}
use k_dash.Publish.Objects.{Clients, Materialized, Published, put_text}
use k_dash.Publish.Release.{release_tag, Plan, push_builds, push_client, push_all}

-- A manifest that was put into a registry under a tag
pub record Pushed : Type 0 where
  pub registry : String
  pub reference : String
  pub manifest : Bytes

-- A push that succeeds is the last entry of the log.
abbrev pub Appends : {W : Type 0} → Clients W → (W → List Pushed) → Type 0
Appends {W} clients log =
    (c : Client) (tag : String) (config : Bytes) (layers : List Bytes) (manifest : Bytes) (w v : W)
    (d : String)
    → clients.push c tag config layers manifest w ≡ (ok d, v)
    → log v ≡ log w ++ (record { registry = c.name; reference = tag; manifest = manifest } ∷ [])

abbrev pub build_entry : Client → Materialized → Pushed
build_entry c m = record {
  registry = c.name;
  reference = "build-sha256-" <> remove_prefix m.key "sha256:";
  manifest = m.manifest_bytes;
}

abbrev pub release_entry : Plan → Client → Pushed
release_entry plan c = record {
  registry = c.name;
  reference = "release-" <> plan.version;
  manifest = plan.release.manifest_bytes;
}

-- To each registry in turn: the builds, and then the release.
abbrev pub pushes_of : Plan → List Client → List Pushed
pushes_of plan [] = []
pushes_of plan (c ∷ cs) =
    map (build_entry c) plan.builds ++ (release_entry plan c ∷ pushes_of plan cs)

pub not-false : (b : Bool) → not b ≡ false → b ≡ true
not-false true h = refl
not-false false h = cc

build_tag-eq :
    (key : String) {tag : String}
    → build_tag key ≡ ok tag
    → tag ≡ "build-sha256-" <> remove_prefix key "sha256:"
unfolding build_tag
build_tag-eq key h =
    on_else (not (starts_with key "sha256:") || not (nat_eq (count key) 71)) _ _ h
      λ _ e. sym (ok_injective e)

module _ {W : Type 0} (clients : Clients W) (log : W → List Pushed)
    (appends : Appends clients log) where
  chain :
      (u v w : W) (first rest : List Pushed)
      → log u ≡ log w ++ first
      → log v ≡ log u ++ rest
      → log v ≡ log w ++ (first ++ rest)
  chain u v w first rest p q = q ∙ ap (λ l. l ++ rest) p ∙ append_assoc (log w) first rest

  -- A step that only computes
  lifted {ℓ} : {A : Type ℓ} (r : Result A) (w v : W) {a : A} → lift r w ≡ (ok a, v) → log v ≡ log w
  lifted {A = A} r w v e = ap (λ (x : Result A × W). log x.1) (sym e)

  ended {ℓ} : {A : Type ℓ} (a : A) (w v : W) {b : A} → pure a w ≡ (ok b, v) → log v ≡ log w
  ended {A = A} a w v e = ap (λ (x : Result A × W). log x.1) (sym e)

  push_builds-log :
      (ms : List Materialized) (c : Client) (builds : List (String × String)) (w v : W)
      {out : List (String × String)}
      → push_builds clients ms c builds w ≡ (ok out, v)
      → log v ≡ log w ++ map (build_entry c) ms
  unfolding push_builds
  push_builds-log [] c builds w v h = ended builds w v h ∙ sym (append-nil (log w))
  push_builds-log (m ∷ ms) c builds w v h = on_run (lift (build_tag m.key)) _ w h λ tag w1 e1 h1.
      on_run (clients.push c tag m.config_bytes (m.layer ∷ []) m.manifest_bytes) _ w1 h1
        λ actual w2 e2 h2.
          on_run (lift (raise_if (not (actual == m.digest)) _)) _ w2 h2 λ _ w3 e3 h3.
            chain w3 v w (build_entry c m ∷ []) (map (build_entry c) ms)
              (lifted (raise_if (not (actual == m.digest)) _) w2 w3 e3
                ∙ appends c tag m.config_bytes (m.layer ∷ []) m.manifest_bytes w1 w2 actual e2
                ∙ ap₂ (λ l (t : String). l ++ (record (build_entry c m) { reference = t } ∷ []))
                    (lifted (build_tag m.key) w w1 e1) (build_tag-eq m.key (ap (λ x. x.0) e1)))
              (push_builds-log ms c (put_text m.key actual builds) w3 v h3)

  push_client-log :
      (plan : Plan) (c : Client) (results : Published) (w v : W) {out : Published}
      → push_client clients plan c results w ≡ (ok out, v)
      → log v ≡ log w ++ (map (build_entry c) plan.builds ++ (release_entry plan c ∷ []))
  unfolding push_client
  push_client-log plan c results w v h =
      on_run (push_builds clients plan.builds c results.builds) _ w h λ builds w1 e1 h1.
        on_run
          (clients.push c (release_tag plan.version) plan.release.config_bytes
            (plan.release.layer ∷ []) plan.release.manifest_bytes)
          _ w1 h1
          λ actual w2 e2 h2.
            on_run (lift (raise_if (not (actual == plan.release.digest)) _)) _ w2 h2 λ _ w3 e3 h3.
              ended _ w3 v h3
              ∙ lifted (raise_if (not (actual == plan.release.digest)) _) w2 w3 e3
              ∙ chain w1 w2 w (map (build_entry c) plan.builds) (release_entry plan c ∷ [])
                  (push_builds-log plan.builds c results.builds w w1 e1)
                  (appends c (release_tag plan.version) plan.release.config_bytes
                    (plan.release.layer ∷ []) plan.release.manifest_bytes w1 w2 actual e2)

  pub push_all-log :
      (plan : Plan) (cs : List Client) (results : Published) (w v : W) {out : Published}
      → push_all clients plan cs results w ≡ (ok out, v)
      → log v ≡ log w ++ pushes_of plan cs
  unfolding push_all
  push_all-log plan [] results w v h = ended results w v h ∙ sym (append-nil (log w))
  push_all-log plan (c ∷ cs) results w v h =
      on_run (push_client clients plan c results) _ w h λ next w1 e1 h1.
        chain w1 v w (map (build_entry c) plan.builds ++ (release_entry plan c ∷ []))
          (pushes_of plan cs) (push_client-log plan c results w w1 e1)
          (push_all-log plan cs next w1 v h1)
        ∙ ap (λ l. log w ++ l)
            (append_assoc (map (build_entry c) plan.builds) (release_entry plan c ∷ [])
              (pushes_of plan cs))
