-- ===== src/Publish/Complete.antt =====
-- What a registry and the cache hold when `publish_release` returns.
use k_dash.Base.{◌≡◌, refl, ◌∙◌, ap, sym, subst, List, [], ◌∷◌, ◌++◌, Result, ok, err, ok_injective}
use k_dash.Base.Exec.{Exec, lift, on_run, Leaves, bind-Leaves}
use k_dash.External.{Libraries}
use k_dash.Model.{RegistryConfig, primary}
use k_dash.Artifact.{Codec, parse_json_blob, extract_binary_archive}
use k_dash.Project.{Readers}
use k_dash.Project.Tree.{Entries, Fnmatch}
use k_dash.Cache.{Cache, Files, commit_build, commit_release, put_resolution}
use k_dash.Validation.{ReadElf}
use k_dash.Runtime.{State}
use k_dash.Runtime.Materialize.{on_network, end_call, write_cache, end_commit}
use k_dash.Api.{Surroundings}
use k_dash.Publish.Objects.{Clients, Builders, Materialized, Published}
use k_dash.Publish.Release.{
  ReleaseRequest, Plan, check_all, push_all, prepare, commit_builds, commit_all, no_results,
  publish_release,
}
use k_dash.Publish.Quiet.{ReadsOnly, check_all-Leaves, prepare-Leaves}
use k_dash.Publish.Plans.{IsPlan, prepare-IsPlan}
use k_dash.Publish.Pushes.{Pushed, Appends, pushes_of, push_all-log}
use k_dash.Publish.Reports.{Reports, push_all-Reports}

module _ {W : Type 0} where
  -- A commit touches the cache alone.
  write_cache-Leaves :
      (call : Cache → Result Cache) → Leaves (λ (s : State W). s.world) (write_cache call)
  write_cache-Leaves call s = go (call s.cache)
    where
      go : (r : Result Cache) → (end_commit s r).1.world ≡ s.world
      go (ok c) = refl
      go (err e) = refl

  on_network-eq {ℓ} :
      {A : Type ℓ} (m : Exec W A) (s t : State W) {r : Result A}
      → on_network m s ≡ (r, t)
      → m s.world ≡ (r, t.world)
  on_network-eq {A = A} m s t {r} h = go (m s.world) h
    where
      go : (x : Result A × W) → end_call s.cache x ≡ (r, t) → x ≡ (r, t.world)
      go (result, w) h' = ap (λ (y : Result A × State W). (y.0, y.1.world)) h'

  write_cache-eq-ok :
      (call : Cache → Result Cache) (s t : State W)
      → write_cache call s ≡ (ok tt, t)
      → call s.cache ≡ ok t.cache
  write_cache-eq-ok call s t h = go (call s.cache) refl h
    where
      go : (r : Result Cache) → call s.cache ≡ r → end_commit s r ≡ (ok tt, t) → r ≡ ok t.cache
      go (ok c) e h' = ap (λ (x : Result (Unit {0}) × State W). ok x.1.cache) h'
      go (err x) e h' = absurd (cc)

module _ {W : Type 0} (lib : Libraries) (rd : Readers) (fnmatch : Fnmatch) (files : Files)
    (codec : Codec) (read_elf : ReadElf) (builders : Builders W) (clients : Clients W)
    (around : Surroundings) where
  commit_builds-Leaves :
      (ms : List Materialized)
      → Leaves
          (λ (s : State W). s.world)
          (commit_builds lib rd fnmatch files codec read_elf builders clients around ms)
  unfolding commit_builds
  commit_builds-Leaves [] = λ s. refl
  commit_builds-Leaves (m ∷ ms) =
      bind-Leaves (λ s. s.world) (lift (parse_json_blob lib "publish-cache" m.config_bytes)) _
        (λ s. refl)
        λ config.
          bind-Leaves (λ s. s.world) (lift (extract_binary_archive codec m.layer)) _ (λ s. refl)
            λ kernel_so.
              bind-Leaves (λ s. s.world)
                (write_cache (commit_build files lib m.key config kernel_so)) _
                (write_cache-Leaves (commit_build files lib m.key config kernel_so))
                λ _. commit_builds-Leaves ms

  commit_all-Leaves :
      (plan : Plan)
      → Leaves
          (λ (s : State W). s.world)
          (commit_all lib rd fnmatch files codec read_elf builders clients around plan)
  unfolding commit_all
  commit_all-Leaves plan =
      bind-Leaves (λ s. s.world)
        (commit_builds lib rd fnmatch files codec read_elf builders clients around plan.builds) _
        (commit_builds-Leaves plan.builds)
        λ _.
          bind-Leaves (λ s. s.world)
            (write_cache (
              commit_release files lib codec plan.release.digest plan.release.config
                plan.release.layer))
            _
            (write_cache-Leaves (
              commit_release files lib codec plan.release.digest plan.release.config
                plan.release.layer))
            λ _.
              bind-Leaves (λ s. s.world) (lift (primary plan.registries)) _ (λ s. refl)
                λ first.
                  write_cache-Leaves
                    (put_resolution lib first.name plan.kernel plan.version plan.release.digest)

  -- The cache was told at the end that the version of the primary registry is this release.
  abbrev pub IsRemembered : Plan → Cache → Type 0
  IsRemembered plan c =
      (first : RegistryConfig) × (primary plan.registries ≡ ok first)
      × (before : Cache) × (put_resolution lib first.name plan.kernel plan.version
            plan.release.digest before
          ≡ ok c)

  commit_all-IsRemembered :
      (plan : Plan) (s t : State W)
      → commit_all lib rd fnmatch files codec read_elf builders clients around plan s ≡ (ok tt, t)
      → IsRemembered plan t.cache
  unfolding commit_all
  commit_all-IsRemembered plan s t h =
      on_run (commit_builds lib rd fnmatch files codec read_elf builders clients around plan.builds)
        _ s h
        λ _ s1 _ h1.
          on_run
            (write_cache (
              commit_release files lib codec plan.release.digest plan.release.config
                plan.release.layer))
            _ s1 h1
            λ _ s2 _ h2. on_run (lift (primary plan.registries)) _ s2 h2 λ first s3 e h3. (
              first,
              ap (λ (x : Result RegistryConfig × State W). x.0) e,
              s3.cache,
              write_cache-eq-ok
                  (put_resolution lib first.name plan.kernel plan.version plan.release.digest) s3 t
                  h3,
            )

  -- A release that `publish_release` returns was pushed to every registry of the configuration in turn, to
  -- each the builds in the order of the plan and the release after them, and nothing else was pushed; the
  -- answer gives the digest of the release under the name of each registry and, when there is one, the
  -- digest of each build under its BuildKey, and the last thing that is written is the resolution of the
  -- version to it in the cache; if a push that succeeds appends to what was pushed, and building and asking
  -- do not.
  pub publish_release-pushes_of :
      (log : W → List Pushed) (q : ReleaseRequest) (root : Entries) (s t : State W) (p : Published)
      → ReadsOnly clients builders log
      → Appends clients log
      → publish_release lib rd fnmatch files codec read_elf builders clients around q root s
        ≡ (ok p, t)
      → (plan : Plan) × IsPlan lib rd fnmatch codec read_elf clients around q root plan
        × (log t.world ≡ log s.world ++ pushes_of plan plan.clients)
        × Reports plan plan.clients p
        × IsRemembered plan t.cache
  unfolding publish_release
  publish_release-pushes_of log q root s t p laws appends h =
      let prepared = prepare lib rd fnmatch files codec read_elf builders clients around q root in
      on_run (on_network prepared) _ s h λ plan s1 e1 h1.
        let asked = check_all clients plan.version plan.release.digest plan.builds plan.clients in
        let none_yet =
          no_results lib rd fnmatch files codec read_elf builders clients around plan in
        let pushed = push_all clients plan plan.clients none_yet in
        let committed =
          commit_all lib rd fnmatch files codec read_elf builders clients around plan in
        on_run (on_network asked) _ s1 h1 λ _ s2 e2 h2.
          on_run (on_network pushed) _ s2 h2 λ results s3 e3 h3.
            on_run committed _ s3 h3 λ _ s4 e4 h4.
              let p1 = on_network-eq prepared s s1 e1 in
              let p2 = on_network-eq asked s1 s2 e2 in
              let p3 = on_network-eq pushed s2 s3 e3 in
              let quiet : log s2.world ≡ log s.world =
                ap (λ (x : Result (Unit {0}) × W). log x.1) (sym p2)
                ∙ check_all-Leaves clients builders log laws plan.version plan.release.digest
                    plan.builds plan.clients s1.world
                ∙ ap (λ (x : Result Plan × W). log x.1) (sym p1)
                ∙ prepare-Leaves clients builders log laws lib rd fnmatch files codec read_elf
                    around q root s.world in
              let still : t.world ≡ s3.world =
                ap (λ (x : Result Published × State W). x.1.world) (sym h4)
                ∙ ap (λ (x : Result (Unit {0}) × State W). x.1.world) (sym e4)
                ∙ commit_all-Leaves plan s3 in
              let is_plan =
                prepare-IsPlan lib rd fnmatch files codec read_elf builders clients around q root
                  plan s.world s1.world p1 in
              let same : results ≡ p =
                ok_injective (ap (λ (x : Result Published × State W). x.0) h4) in
              (
                plan,
                is_plan,
                ap log still
                    ∙ push_all-log clients log appends plan plan.clients none_yet s2.world s3.world
                        p3
                    ∙ ap (λ l. l ++ pushes_of plan plan.clients) quiet,
                subst (Reports plan plan.clients) same (
                    push_all-Reports clients plan plan.clients none_yet results s2.world s3.world
                      is_plan.distinct refl p3),
                subst (λ (x : State W). IsRemembered plan x.cache)
                    (ap (λ (x : Result Published × State W). x.1) h4)
                    (commit_all-IsRemembered plan s3 s4 e4),
              )
