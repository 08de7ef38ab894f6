-- ===== src/Publish/Builds.antt =====
-- The builds of a release, one for each target and each arguments, made before anything is pushed.
use k_dash.Base.{String, List, [], ◌∷◌, ◌++◌, ◌==◌, contains, if◌then◌else◌}
use k_dash.Base.Exec.{Exec, pure, lift, ◌>>=◌}
use k_dash.Json.{Value}
use k_dash.External.{Bytes, Libraries}
use k_dash.Model.{TargetSpec, target_dict, BuildSpec, build_spec}
use k_dash.Canonical.{spec_key}
use k_dash.Artifact.{Codec}
use k_dash.Project.Tree.{Entries}
use k_dash.Validation.{ReadElf}
use k_dash.Publish.Objects.{Builders, Materialized, materialized_of, checked_objects}

-- The keys that were met, and the builds in their order
pub record Progress : Type 0 where
  pub seen : List String
  pub built : List Materialized

abbrev pub no_progress : Progress
no_progress = record { seen = []; built = [] }

module _ {W : Type 0} (lib : Libraries) (codec : Codec) (read_elf : ReadElf) (builders : Builders W)
    (backend image : String) (source : Entries) (digest : String) where
  abbrev pub build_with : BuildSpec → Exec W (Bytes × Value)
  build_with spec =
      if backend == "nix" then builders.nix source spec else builders.docker image source spec

  abbrev pub build_one : BuildSpec → (key : String) → Progress → Exec W Progress
  build_one spec key p = do
    (kernel_so, provenance) ← build_with spec
    objects ← lift (checked_objects lib codec read_elf spec kernel_so provenance)
    pure (record { seen = key ∷ p.seen; built = p.built ++ (materialized_of key objects ∷ []) })

  abbrev pub unless_seen : BuildSpec → (key : String) → Progress → Exec W Progress
  unless_seen spec key p = if contains p.seen key then pure p else build_one spec key p

  -- `for args in args_values`
  unfoldable pub build_target : TargetSpec → List Value → Progress → Exec W Progress
  build_target target [] p = pure p
  build_target target (args ∷ rest) p =
      lift (spec_key lib (build_spec digest args (target_dict target))) >>= λ key.
      unless_seen (build_spec digest args (target_dict target)) key p >>= λ q.
      build_target target rest q

  -- `for target in targets`
  unfoldable pub build_targets : List TargetSpec → List Value → Progress → Exec W Progress
  unfolding build_target
  build_targets [] args p = pure p
  build_targets (target ∷ rest) args p =
      build_target target args p >>= λ q. build_targets rest args q
