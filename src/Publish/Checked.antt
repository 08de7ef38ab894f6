-- ===== src/Publish/Checked.antt =====
-- Nothing is pushed before everything is built and every registry was asked.
use k_dash.Base.{◌≡◌, ◌≢◌, refl, ◌∙◌, ap, sym, All, ◌⊎◌, inl, inr, Result, ok, err}
use k_dash.Base.Exec.{Exec, pure, ◌>>=◌, ◌>>◌, continue}
use k_dash.External.{Libraries}
use k_dash.Artifact.{Codec}
use k_dash.Project.{Readers}
use k_dash.Project.Tree.{Entries, Fnmatch}
use k_dash.Cache.{Files}
use k_dash.Validation.{ReadElf}
use k_dash.Runtime.{State}
use k_dash.Runtime.Materialize.{on_network, end_call}
use k_dash.Api.{Surroundings}
use k_dash.Publish.Objects.{Clients, Builders, Published}
use k_dash.Publish.Release.{
  ReleaseRequest, Plan, check_all, push_all, prepare, commit_all, no_results, publish_release,
}
use k_dash.Publish.Plans.{IsPlan, prepare-IsPlan}
use k_dash.Publish.Quiet.{ReadsOnly, check_all-Leaves, prepare-Leaves}
use k_dash.Publish.Answers.{IsClear, all-IsClear}

module _ {W : Type 0} {L : Type 0} (lib : Libraries) (rd : Readers) (fnmatch : Fnmatch)
    (files : Files) (codec : Codec) (read_elf : ReadElf) (builders : Builders W)
    (clients : Clients W) (around : Surroundings) (log : W → L)
    (laws : ReadsOnly clients builders log) (q : ReleaseRequest) (root : Entries) where
  -- Everything is built, and every registry has allowed the release and every build, before a push.
  pub record Checked (start : W) : Type 0 where
    pub plan : Plan
    pub is_plan : IsPlan lib rd fnmatch codec read_elf clients around q root plan
    pub clear :
        All
          (IsClear clients log (log start) plan.version plan.release.digest plan.builds)
          plan.clients

  -- `publish_release` either pushes nothing and raises, or it has first built every AOT build, one under
  -- the BuildKey of each target of the request with the content of each file of arguments, and none without
  -- such files, each with a BuildKey of its own and a kernel.so that passes validation, and has asked every
  -- registry, with nothing pushed yet: each of them knew neither the tag of the release nor that of a build
  -- under another digest, except for the tag of a `dev-` version; if asking registries and building push
  -- nothing.
  pub publish_release-Checked :
      (s : State W)
      → ((log
              (publish_release lib rd fnmatch files codec read_elf builders clients around q root
                s).1.world
            ≡ log s.world)
          × ((p : Published)
              → (publish_release lib rd fnmatch files codec read_elf builders clients around q root
                  s).0
                ≢ ok p))
        ⊎ Checked s.world
  unfolding publish_release
  publish_release-Checked s =
      prepared (prepare lib rd fnmatch files codec read_elf builders clients around q root s.world)
        refl
    where
      rest : Plan → Exec (State W) Published
      rest plan = do
        results ← on_network (
            push_all clients plan plan.clients
              (no_results lib rd fnmatch files codec read_elf builders clients around plan))
        commit_all lib rd fnmatch files codec read_elf builders clients around plan
        pure results

      Outcome : Result Published × State W → Type 0
      Outcome r = ((log r.1.world ≡ log s.world) × ((p : Published) → r.0 ≢ ok p)) ⊎ Checked s.world

      asked :
          (plan : Plan) (w : W)
          → prepare lib rd fnmatch files codec read_elf builders clients around q root s.world
            ≡ (ok plan, w)
          → log w ≡ log s.world
          → (r : Result (Unit {0}) × W)
          → check_all clients plan.version plan.release.digest plan.builds plan.clients w ≡ r
          → log r.1 ≡ log w
          → Outcome (continue (λ _. rest plan) (end_call s.cache r))
      asked plan w e quiet (ok u, v) f still_quiet = inr (record {
        plan = plan;
        is_plan =
            prepare-IsPlan lib rd fnmatch files codec read_elf builders clients around q root plan
              s.world w e;
        clear =
            all-IsClear clients builders log laws (log s.world) plan.version plan.release.digest
              plan.builds plan.clients w v quiet f;
      })
      asked plan w e quiet (err x, v) f still_quiet = inl (still_quiet ∙ quiet, λ p h. cc)

      prepared :
          (r : Result Plan × W)
          → prepare lib rd fnmatch files codec read_elf builders clients around q root s.world ≡ r
          → Outcome (
              continue
                (λ plan.
                  on_network
                    (check_all clients plan.version plan.release.digest plan.builds plan.clients)
                  >>= λ _. rest plan)
                (end_call s.cache r))
      prepared (ok plan, w) e =
          asked plan w e
            (ap (λ (x : Result Plan × W). log x.1) (sym e)
              ∙ prepare-Leaves clients builders log laws lib rd fnmatch files codec read_elf around
                  q root s.world)
            (check_all clients plan.version plan.release.digest plan.builds plan.clients w) refl
            (check_all-Leaves clients builders log laws plan.version plan.release.digest plan.builds
              plan.clients w)
      prepared (err x, w) e = inl (
        (ap (λ (x : Result Plan × W). log x.1) (sym e)
            ∙ prepare-Leaves clients builders log laws lib rd fnmatch files codec read_elf around q
                root s.world),
        λ p h. cc,
      )
