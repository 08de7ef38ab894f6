-- ===== src/Cli/Listed.antt =====
-- The directories of the cache that a list of entries names, and what removing the entries leaves.
use k_dash.Base.{
  ℕ, ◌≡◌, refl, ◌∙◌, ap, String, Bool, true, false, not, ◌||◌, List, [], ◌∷◌, ◌++◌, ◌==◌, eq_refl,
  leb, if◌then◌else◌, All,
}
use k_dash.Base.Lists.Laws.{All-keep, All-weaken}
use k_dash.Cache.{Cache, ReleaseDir, BuildDir}
use k_dash.Cli.{
  CacheEntry, a_build, a_release, build_entries, release_entries, remove_entry, insert_entry,
  sort_entries,
}

abbrev pub remove_all : List CacheEntry → Cache → Cache
remove_all [] c = c
remove_all (e ∷ es) c = remove_all es (remove_entry e c)

abbrev pub entries_of : Cache → List CacheEntry
entries_of c = build_entries c.builds ++ release_entries c.releases

pub names_build : List CacheEntry → String → Bool
names_build [] n = false
names_build (a_build m ∷ es) n = n == m || names_build es n
names_build (a_release m ∷ es) n = names_build es n

pub names_release : List CacheEntry → String → Bool
names_release [] n = false
names_release (a_build m ∷ es) n = names_release es n
names_release (a_release m ∷ es) n = n == m || names_release es n

-- Every directory of the cache is among the entries.
abbrev pub Listed : List CacheEntry → Cache → Type 0
Listed es c =
    All (λ (p : String × BuildDir). names_build es p.0 ≡ true) c.builds
    × All (λ (p : String × ReleaseDir). names_release es p.0 ≡ true) c.releases

other : (a b : Bool) → (a || b) ≡ true → not a ≡ true → b ≡ true
other true b h k = cc
other false b h k = h

remove_entry-Listed :
    (e : CacheEntry) (es : List CacheEntry) (c : Cache)
    → Listed (e ∷ es) c
    → Listed es (remove_entry e c)
unfolding remove_entry names_build names_release
remove_entry-Listed (a_build m) es c (b, r) = (
  All-keep (λ (p : String × BuildDir). (p.0 == m || names_build es p.0) ≡ true)
      (λ p. names_build es p.0 ≡ true) (λ p. not (p.0 == m)) c.builds
      (λ p h k. other (p.0 == m) (names_build es p.0) h k) b,
  r,
)
remove_entry-Listed (a_release m) es c (b, r) = (
  b,
  All-keep (λ (p : String × ReleaseDir). (p.0 == m || names_release es p.0) ≡ true)
      (λ p. names_release es p.0 ≡ true) (λ p. not (p.0 == m)) c.releases
      (λ p h k. other (p.0 == m) (names_release es p.0) h k) r,
)

abbrev pub IsBare : Cache → Type 0
IsBare c = (c.builds ≡ []) × (c.releases ≡ [])

none_left {ℓ} : {A : Type ℓ} (l : List A) → All (λ _. false ≡ true) l → l ≡ []
none_left [] h = refl
none_left (x ∷ l) h = absurd (cc h.0)

pub remove_all-IsBare : (es : List CacheEntry) (c : Cache) → Listed es c → IsBare (remove_all es c)
unfolding names_build names_release
remove_all-IsBare [] c (b, r) = (none_left c.builds b, none_left c.releases r)
remove_all-IsBare (e ∷ es) c h =
    remove_all-IsBare es (remove_entry e c) (remove_entry-Listed e es c h)

or_left : (a b : Bool) → b ≡ true → (a || b) ≡ true
or_left true b h = refl
or_left false b h = h

build_entries-All :
    (bs : List (String × BuildDir)) (rest : List CacheEntry)
    → All (λ (p : String × BuildDir). names_build (build_entries bs ++ rest) p.0 ≡ true) bs
unfolding names_build
build_entries-All [] rest = tt
build_entries-All ((n, d) ∷ bs) rest = (
  rw (eq_refl n) refl,
  All-weaken (λ (p : String × BuildDir). names_build (build_entries bs ++ rest) p.0 ≡ true)
      (λ p. (p.0 == n || names_build (build_entries bs ++ rest) p.0) ≡ true) bs
      (λ p h. or_left (p.0 == n) (names_build (build_entries bs ++ rest) p.0) h)
      (build_entries-All bs rest),
)

release_entries-All :
    (rs : List (String × ReleaseDir))
    → All (λ (p : String × ReleaseDir). names_release (release_entries rs) p.0 ≡ true) rs
unfolding names_release
release_entries-All [] = tt
release_entries-All ((n, d) ∷ rs) = (
  rw (eq_refl n) refl,
  All-weaken (λ (p : String × ReleaseDir). names_release (release_entries rs) p.0 ≡ true)
      (λ p. (p.0 == n || names_release (release_entries rs) p.0) ≡ true) rs
      (λ p h. or_left (p.0 == n) (names_release (release_entries rs) p.0) h)
      (release_entries-All rs),
)

names_release-append :
    (bs : List (String × BuildDir)) (rest : List CacheEntry) (n : String)
    → names_release (build_entries bs ++ rest) n ≡ names_release rest n
unfolding names_release
names_release-append [] rest n = refl
names_release-append ((m, d) ∷ bs) rest n = names_release-append bs rest n

or_swap : (a b c : Bool) → (a || (b || c)) ≡ (b || (a || c))
or_swap true true c = refl
or_swap true false c = refl
or_swap false true c = refl
or_swap false false c = refl

-- Sorting keeps the entries.
module _ (mtime : CacheEntry → ℕ) where
  SameNames : List CacheEntry → List CacheEntry → Type 0
  SameNames es fs =
      (n : String)
      → (names_build es n ≡ names_build fs n) × (names_release es n ≡ names_release fs n)

  same_head :
      (e : CacheEntry) (es fs : List CacheEntry) → SameNames es fs → SameNames (e ∷ es) (e ∷ fs)
  unfolding SameNames names_build names_release
  same_head (a_build m) es fs h n = (ap (λ b. n == m || b) (h n).0, (h n).1)
  same_head (a_release m) es fs h n = ((h n).0, ap (λ b. n == m || b) (h n).1)

  same_swap : (e f : CacheEntry) (es : List CacheEntry) → SameNames (f ∷ e ∷ es) (e ∷ f ∷ es)
  unfolding SameNames names_build names_release
  same_swap (a_build m) (a_build k) es n = (or_swap (n == k) (n == m) (names_build es n), refl)
  same_swap (a_build m) (a_release k) es n = (refl, refl)
  same_swap (a_release m) (a_build k) es n = (refl, refl)
  same_swap (a_release m) (a_release k) es n =
      (refl, or_swap (n == k) (n == m) (names_release es n))

  same_trans : (a b c : List CacheEntry) → SameNames a b → SameNames b c → SameNames a c
  unfolding SameNames
  same_trans a b c h k n = ((h n).0 ∙ (k n).0, (h n).1 ∙ (k n).1)

  insert_entry-SameNames :
      (e : CacheEntry) (es : List CacheEntry) → SameNames (insert_entry mtime e es) (e ∷ es)
  unfolding insert_entry SameNames
  insert_entry-SameNames e [] = λ n. (refl, refl)
  insert_entry-SameNames e (f ∷ fs) = go (leb (mtime e) (mtime f)) (insert_entry-SameNames e fs)
    where
      go :
          (b : Bool)
          → SameNames (insert_entry mtime e fs) (e ∷ fs)
          → SameNames (if b then e ∷ f ∷ fs else f ∷ insert_entry mtime e fs) (e ∷ f ∷ fs)
      go true h = λ n. (refl, refl)
      go false h =
          same_trans (f ∷ insert_entry mtime e fs) (f ∷ e ∷ fs) (e ∷ f ∷ fs)
            (same_head f (insert_entry mtime e fs) (e ∷ fs) h) (same_swap e f fs)

  sort_entries-SameNames : (es : List CacheEntry) → SameNames (sort_entries mtime es) es
  unfolding sort_entries SameNames
  sort_entries-SameNames [] = λ n. (refl, refl)
  sort_entries-SameNames (e ∷ es) =
      same_trans (insert_entry mtime e (sort_entries mtime es)) (e ∷ sort_entries mtime es) (e ∷ es)
        (insert_entry-SameNames e (sort_entries mtime es))
        (same_head e (sort_entries mtime es) es (sort_entries-SameNames es))

  pub sorted-Listed : (c : Cache) → Listed (sort_entries mtime (entries_of c)) c
  unfolding SameNames
  sorted-Listed c =
      let same = sort_entries-SameNames (entries_of c) in
      (
        All-weaken (λ (p : String × BuildDir). names_build (entries_of c) p.0 ≡ true) _ c.builds
            (λ p h. (same p.0).0 ∙ h) (build_entries-All c.builds (release_entries c.releases)),
        All-weaken
            (λ (p : String × ReleaseDir). names_release (release_entries c.releases) p.0 ≡ true) _
            c.releases
            (λ p h.
              (same p.0).1 ∙ names_release-append c.builds (release_entries c.releases) p.0 ∙ h)
            (release_entries-All c.releases),
      )
