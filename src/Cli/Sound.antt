-- ===== src/Cli/Sound.antt =====
-- Every command leaves a sound cache.
use k_dash.Base.{
  ℕ, ◌≡◌, ap, ◌⊎◌, inl, inr, raise_python, os_error, String, Option, [], ◌∷◌, Result, ok, err,
  k_dash_error, python_error,
}
use k_dash.Base.Exec.{Exec, pure, ◌>>=◌, continue}
use k_dash.Json.{Value, obj, str, int, fields}
use k_dash.Json.Numbers.{ℤ, pos}
use k_dash.External.{Libraries}
use k_dash.Artifact.{Codec}
use k_dash.Project.{Readers}
use k_dash.Project.Tree.{Entries, Fnmatch}
use k_dash.Cache.{Cache, Files, clean}
use k_dash.Cache.Sound.{IsSound}
use k_dash.Validation.{ReadElf}
use k_dash.Runtime.{Registries, State}
use k_dash.Api.{Surroundings}
use k_dash.Runtime.Keeps.{bind-Keeps}
use k_dash.Publish.Objects.{Clients, Builders}
use k_dash.Runtime.Sound.{KeepsSound, lift-KeepsSound}
use k_dash.Publish.Sound.{
  local_build-KeepsSound, publish_release-KeepsSound, publish_build-KeepsSound,
}
use k_dash.Project.{load_project}
use k_dash.Publish.Release.{publish_release}
use k_dash.Publish.Addition.{publish_build}
use k_dash.Publish.Local.{LocalRequest, local_build}
use k_dash.Templates.{Resources, init_project}
use k_dash.Cli.{prune, parse_size}
use k_dash.Cli.Removals.{SoundOrRaised, prune_loop-SoundOrRaised, clean-SoundOrRaised}
use k_dash.Cli.Run.{
  Command, init, build, publish, publish_addition, cache_info, cache_clean, cache_prune, Shell,
  Tools, end_change, change_cache, cache_size, end_inner, end_init, inside, init_at, run_prune,
  run_local, run_info, run_clean, published_value, addition_value, run_command, exit_with, main,
}

module _ {W : Type 0} where
  abbrev SoundShell {ℓ} : {A : Type ℓ} → Exec (Shell W) A → Type 0
  SoundShell m = (s : Shell W) → IsSound s.inner.cache → IsSound (m s).1.inner.cache

  then_pure {ℓ κ} :
      {A : Type ℓ} {B : Type κ} (call : Entries → Exec (State W) A) (g : A → B)
      → ((root : Entries) → KeepsSound (call root))
      → SoundShell (inside call >>= λ a. pure (g a))
  then_pure {A = A} call g k s sound = go (call s.cwd s.inner) (k s.cwd s.inner sound)
    where
      go :
          (r : Result A × State W)
          → IsSound r.1.cache
          → IsSound (continue (λ a. pure (g a)) (end_inner s r)).1.inner.cache
      go (ok a, t) i = i
      go (err x, t) i = i

  inside-SoundShell {ℓ} :
      {A : Type ℓ} (call : Entries → Exec (State W) A)
      → ((root : Entries) → KeepsSound (call root))
      → SoundShell (inside call)
  inside-SoundShell {A = A} call k s sound = go (call s.cwd s.inner) (k s.cwd s.inner sound)
    where
      go : (r : Result A × State W) → IsSound r.1.cache → IsSound (end_inner s r).1.inner.cache
      go (result, t) i = i

  init_at-SoundShell :
      (res : Resources) (kernel path template : String) (license : Option String)
      → SoundShell (init_at {W = W} res kernel path template license)
  init_at-SoundShell res kernel path template license s sound =
      go (init_project res _ _ template license)
    where
      go : (r : Result Entries) → IsSound (end_init path s r).1.inner.cache
      go (ok es) = sound
      go (err x) = sound

  -- A command that removes
  removal :
      {A : Type 0} (call : Exec Cache (Unit {0})) (f : Unit {0} → Exec (State W) A) (s : State W)
      → SoundOrRaised (call s.cache).0 (call s.cache).1
      → KeepsSound (f tt)
      → SoundOrRaised ((change_cache call >>= f) s).0 ((change_cache call >>= f) s).1.cache
  removal {A = A} call f s ended k = go (call s.cache) ended
    where
      go :
          (r : Result (Unit {0}) × Cache)
          → SoundOrRaised r.0 r.1
          → SoundOrRaised (continue f (end_change s r)).0 (continue f (end_change s r)).1.cache
      go (ok u, d) (inl sound) = inl (k (record s { cache = d }) sound)
      go (ok u, d) (inr e) = cc
      go (err x, d) (inl sound) = inl sound
      go (err x, d) (inr e) = let same : x ≡ python_error os_error = cc in inr (ap err same)

  passed_on :
      (s : Shell W) (r : Result Value × State W)
      → SoundOrRaised r.0 r.1.cache
      → SoundOrRaised (end_inner s r).0 (end_inner s r).1.inner.cache
  passed_on s (result, t) ended = ended

-- The commands that remove
abbrev pub IsRemoval : Command → Type 0
IsRemoval cache_clean = Unit
IsRemoval (cache_prune max_size) = Unit
IsRemoval _ = ⊥

module _ {W : Type 0} (lib : Libraries) (rd : Readers) (fnmatch : Fnmatch) (files : Files)
    (codec : Codec) (read_elf : ReadElf) (builders : Builders W) (clients : Clients W)
    (net : Registries W) (around : Surroundings) (tools : Tools) where
  run_local-KeepsSound :
      (q : LocalRequest) (root : Entries)
      → KeepsSound
          (run_local lib rd fnmatch files codec read_elf builders clients net around tools q root)
  run_local-KeepsSound q root = lift-KeepsSound (load_project lib rd root) _ λ _.
      bind-Keeps IsSound (local_build lib rd fnmatch files codec read_elf builders around q root) _
        (local_build-KeepsSound lib rd fnmatch files codec read_elf builders around q root)
        λ results s i. i

  run_prune-SoundOrRaised :
      (max_size : String) (s : State W)
      → IsSound s.cache
      → SoundOrRaised
          (run_prune lib rd fnmatch files codec read_elf builders clients net around tools max_size
            s).0
          (run_prune lib rd fnmatch files codec read_elf builders clients net around tools max_size
            s).1.cache
  unfolding prune
  run_prune-SoundOrRaised max_size s sound = go (parse_size tools.numerals max_size)
    where
      after : ℤ → Exec (State W) Value
      after maximum = change_cache (prune tools.rmtree_entry tools.mtime maximum) >>= λ _.
          cache_size >>= λ left. pure (
            obj (
              fields (
                ("path", str tools.cache_root)
                ∷ ("size", int (pos left))
                ∷ ("max_size", int maximum)
                ∷ [])))

      go : (r : Result ℤ) → SoundOrRaised (continue after (r, s)).0 (continue after (r, s)).1.cache
      go (ok maximum) =
          removal (prune tools.rmtree_entry tools.mtime maximum) _ s
            (prune_loop-SoundOrRaised tools.rmtree_entry maximum _ s.cache sound) λ t i. i
      go (err x) = inl sound

  abbrev Ended : Command → Result Value × Shell W → Type 0
  Ended command r = IsSound r.1.inner.cache ⊎ (IsRemoval command × (r.0 ≡ raise_python os_error))

  removed :
      (command : Command)
      → IsRemoval command
      → (r : Result Value × Shell W) → SoundOrRaised r.0 r.1.inner.cache
      → Ended command r
  removed command is r (inl sound) = inl sound
  removed command is r (inr e) = inr (is, e)

  run_command-Ended :
      (command : Command) (s : Shell W)
      → IsSound s.inner.cache
      → Ended command (
          run_command lib rd fnmatch files codec read_elf builders clients net around tools command
            s)
  unfolding run_command
  run_command-Ended (init kernel template license path) s i =
      inl (init_at-SoundShell tools.resources kernel _ template license s i)
  run_command-Ended (build q) s i = inl (
      inside-SoundShell
        (run_local lib rd fnmatch files codec read_elf builders clients net around tools q)
        (run_local-KeepsSound q) s i)
  run_command-Ended (publish q) s i = inl (
      then_pure (publish_release lib rd fnmatch files codec read_elf builders clients around q)
        published_value
        (publish_release-KeepsSound lib rd fnmatch files codec read_elf builders clients around q) s
        i)
  run_command-Ended (publish_addition q) s i = inl (
      then_pure (publish_build lib rd fnmatch files codec read_elf builders clients net around q)
        addition_value
        (publish_build-KeepsSound lib rd fnmatch files codec read_elf builders clients around net q)
        s i)
  run_command-Ended cache_info s i = inl (
      inside-SoundShell
        (λ _. run_info lib rd fnmatch files codec read_elf builders clients net around tools)
        (λ root t j. j) s i)
  run_command-Ended cache_clean s i =
      removed cache_clean tt
        (end_inner s
          (run_clean lib rd fnmatch files codec read_elf builders clients net around tools s.inner))
        (passed_on s
          (run_clean lib rd fnmatch files codec read_elf builders clients net around tools s.inner)
          (removal (clean tools.rmtree_child) _ s.inner
            (clean-SoundOrRaised tools.rmtree_child s.inner.cache i) λ t j. j))
  run_command-Ended (cache_prune max_size) s i =
      removed (cache_prune max_size) tt
        (end_inner s (
          run_prune lib rd fnmatch files codec read_elf builders clients net around tools max_size
            s.inner))
        (passed_on s
          (run_prune lib rd fnmatch files codec read_elf builders clients net around tools max_size
            s.inner)
          (run_prune-SoundOrRaised max_size s.inner i))

  -- Whatever the command, and wherever it fails, k-dash leaves a cache in which no two builds and no two
  -- releases have the same directory, every build has its config and its kernel.so, and every release its
  -- config, its archive and its sources, if that held before; except that pruning or cleaning the cache may
  -- end with the OSError of a removal, which may have left a directory in part.
  pub main-IsSound :
      (command : Command) (s : Shell W)
      → IsSound s.inner.cache
      → IsSound
          (main lib rd fnmatch files codec read_elf builders clients net around tools command
            s).1.inner.cache
        ⊎ (IsRemoval command
            × ((main lib rd fnmatch files codec read_elf builders clients net around tools command
                  s).0
                ≡ raise_python os_error))
  unfolding main
  main-IsSound command s sound =
      printed
        (run_command lib rd fnmatch files codec read_elf builders clients net around tools command
          s)
        (run_command-Ended command s sound)
    where
      exit : Result Value × Shell W → Result (ℕ × Option Value) × Shell W
      exit r = exit_with lib rd fnmatch files codec read_elf builders clients net around tools r

      printed :
          (r : Result Value × Shell W)
          → Ended command r
          → IsSound (exit r).1.inner.cache
            ⊎ (IsRemoval command × ((exit r).0 ≡ raise_python os_error))
      printed (ok result, t) (inl i) = inl i
      printed (ok result, t) (inr (is, e)) = absurd (cc)
      printed (err (k_dash_error class message stage), t) (inl i) = inl i
      printed (err (k_dash_error class message stage), t) (inr (is, e)) = absurd (cc)
      printed (err (python_error x), t) (inl i) = inl i
      printed (err (python_error x), t) (inr (is, e)) =
          let same : x ≡ os_error = cc in inr (is, ap (λ y. err (python_error y)) same)
