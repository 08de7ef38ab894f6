-- ===== src/Cli/Removals.antt =====
-- Pruning and cleaning remove whole directories, unless `rmtree` raises.
use k_dash.Base.{
  ◌≡◌, refl, ◌⊎◌, inl, inr, String, Bool, true, false, Option, none, some, List, [], ◌∷◌,
  if◌then◌else◌, Result, ok, err, raise_python, os_error,
}
use k_dash.Base.Exec.{Exec, ◌>>=◌, continue}
use k_dash.Base.Lists.Laws.{All-keep}
use k_dash.Json.Numbers.{ℤ}
use k_dash.Cache.{
  Cache, BuildDir, ReleaseDir, Rmtree, CacheChild, releases_child, builds_child, resolutions_child,
  tmp_child, emptied, end_rmtree, clean_child, size, clean,
}
use k_dash.Cache.Sound.{IsSound, IsSound-same, IsWholeBuild, IsWholeRelease, IsDistinct-keep}
use k_dash.Cli.{CacheEntry, a_build, a_release, exceeds, remove_entry, rmtree_entry, prune_loop}

remove_entry-IsSound : (e : CacheEntry) (c : Cache) → IsSound c → IsSound (remove_entry e c)
unfolding remove_entry
remove_entry-IsSound (a_build name) c sound = record {
  distinct_builds = IsDistinct-keep _ c.builds sound.distinct_builds;
  distinct_releases = sound.distinct_releases;
  whole_builds =
      All-keep (λ (p : String × BuildDir). IsWholeBuild p.1) _ _ c.builds (λ p h k. h)
        sound.whole_builds;
  whole_releases = sound.whole_releases;
}
remove_entry-IsSound (a_release name) c sound = record {
  distinct_builds = sound.distinct_builds;
  distinct_releases = IsDistinct-keep _ c.releases sound.distinct_releases;
  whole_builds = sound.whole_builds;
  whole_releases =
      All-keep (λ (p : String × ReleaseDir). IsWholeRelease p.1) _ _ c.releases (λ p h k. h)
        sound.whole_releases;
}

-- How a removal ends: in a sound cache, or with the OSError of `rmtree`
abbrev pub SoundOrRaised : {A : Type 0} → Result A → Cache → Type 0
SoundOrRaised r c = IsSound c ⊎ (r ≡ raise_python os_error)

-- Two removals, of which the second is not begun where the first raised
then-SoundOrRaised :
    (m n : Exec Cache (Unit {0})) (c : Cache)
    → SoundOrRaised (m c).0 (m c).1
    → ((d : Cache) → IsSound d → SoundOrRaised (n d).0 (n d).1)
    → SoundOrRaised ((m >>= λ _. n) c).0 ((m >>= λ _. n) c).1
then-SoundOrRaised m n c first k = go (m c) first
  where
    go :
        (r : Result (Unit {0}) × Cache)
        → SoundOrRaised r.0 r.1
        → SoundOrRaised (continue (λ _. n) r).0 (continue (λ _. n) r).1
    go (ok u, d) (inl sound) = k d sound
    go (ok u, d) (inr e) = cc
    go (err x, d) (inl sound) = inl sound
    go (err x, d) (inr e) = inr e

end_rmtree-SoundOrRaised :
    (left : Option Cache) (c : Cache)
    → IsSound c
    → SoundOrRaised (end_rmtree left c).0 (end_rmtree left c).1
end_rmtree-SoundOrRaised none c sound = inl sound
end_rmtree-SoundOrRaised (some d) c sound = inr refl

pub prune_loop-SoundOrRaised :
    (rmtree : Rmtree CacheEntry) (maximum : ℤ) (es : List CacheEntry) (c : Cache)
    → IsSound c
    → SoundOrRaised (prune_loop rmtree maximum es c).0 (prune_loop rmtree maximum es c).1
unfolding prune_loop
prune_loop-SoundOrRaised rmtree maximum [] c sound = inl sound
prune_loop-SoundOrRaised rmtree maximum (e ∷ es) c sound = go (exceeds (size c) maximum) (
    then-SoundOrRaised (rmtree_entry rmtree e) (prune_loop rmtree maximum es) c
      (end_rmtree-SoundOrRaised (rmtree e c) (remove_entry e c) (remove_entry-IsSound e c sound))
      (prune_loop-SoundOrRaised rmtree maximum es))
  where
    Ended : Result (Unit {0}) × Cache → Type 0
    Ended r = SoundOrRaised r.0 r.1

    go :
        (b : Bool)
        → Ended ((rmtree_entry rmtree e >>= λ _. prune_loop rmtree maximum es) c)
        → Ended (
            if b
            then (rmtree_entry rmtree e >>= λ _. prune_loop rmtree maximum es) c
            else (ok tt, c))
    go true later = later
    go false later = inl sound

emptied-IsSound : (child : CacheChild) (c : Cache) → IsSound c → IsSound (emptied child c)
emptied-IsSound releases_child c sound = record {
  distinct_builds = sound.distinct_builds;
  distinct_releases = tt;
  whole_builds = sound.whole_builds;
  whole_releases = tt;
}
emptied-IsSound builds_child c sound = record {
  distinct_builds = tt;
  distinct_releases = sound.distinct_releases;
  whole_builds = tt;
  whole_releases = sound.whole_releases;
}
emptied-IsSound resolutions_child c sound =
    IsSound-same c (emptied resolutions_child c) refl refl sound
emptied-IsSound tmp_child c sound = sound

pub clean-SoundOrRaised :
    (rmtree : Rmtree CacheChild) (c : Cache)
    → IsSound c
    → SoundOrRaised (clean rmtree c).0 (clean rmtree c).1
unfolding clean
clean-SoundOrRaised rmtree c sound =
    let round = λ (child : CacheChild) (d : Cache) (i : IsSound d).
      end_rmtree-SoundOrRaised (rmtree child d) (emptied child d) (emptied-IsSound child d i) in
    then-SoundOrRaised (clean_child rmtree releases_child) _ c (round releases_child c sound) λ d i.
      then-SoundOrRaised (clean_child rmtree builds_child) _ d (round builds_child d i) λ e j.
        then-SoundOrRaised (clean_child rmtree resolutions_child) _ e (round resolutions_child e j)
          (round tmp_child)
