-- ===== src/Cli/Oldest.antt =====
-- Pruning ends with a cache that is small enough or has no entries left, and takes the oldest away first.
use mathlib.Core.List.{append-nil}
use native.Mathlib.Nat.{le_trans}
use k_dash.Base.{
  ℕ, ◌≤◌, ◌≡◌, refl, ◌∙◌, ap, subst, true, false, List, [], ◌∷◌, ◌++◌, leb, All, arith, Bool-cases,
  Option-cases, some, Result, ok, raise_python, os_error, ◌⊎◌, inl, inr,
}
use k_dash.Json.Numbers.{ℤ}
use k_dash.Cache.{Cache, Rmtree, size}
use k_dash.Cli.{CacheEntry, exceeds, remove_entry, insert_entry, sort_entries, prune_loop, prune}
use k_dash.Cli.Listed.{remove_all, entries_of, IsBare, remove_all-IsBare, sorted-Listed}

-- Before each removal the cache was too large.
abbrev pub NeededAt : (maximum : ℤ) → List CacheEntry → Cache → Type 0
NeededAt maximum [] c = Unit
NeededAt maximum (e ∷ es) c =
    (exceeds (size c) maximum ≡ true) × NeededAt maximum es (remove_entry e c)

-- No entry is older than one that stands before it.
abbrev pub OldestFirst : (mtime : CacheEntry → ℕ) → List CacheEntry → Type 0
OldestFirst mtime [] = Unit
OldestFirst mtime (e ∷ es) = All (λ f. mtime e ≤ mtime f) es × OldestFirst mtime es

module _ (mtime : CacheEntry → ℕ) where
  All-insert_entry :
      (P : CacheEntry → Type 0) (e : CacheEntry) (es : List CacheEntry)
      → P e
      → All P es
      → All P (insert_entry mtime e es)
  unfolding insert_entry
  All-insert_entry P e [] p h = (p, tt)
  All-insert_entry P e (f ∷ fs) p h = elim (Bool-cases (leb (mtime e) (mtime f))) [
    | inl t ↦ rw t (p, h)
    | inr n ↦ rw n (h.0, All-insert_entry P e fs p h.1)
  ]

  All-later :
      (e f : CacheEntry) (fs : List CacheEntry)
      → mtime e ≤ mtime f
      → All (λ g. mtime f ≤ mtime g) fs
      → All (λ g. mtime e ≤ mtime g) fs
  All-later e f [] le h = tt
  All-later e f (g ∷ fs) le h = (le_trans le h.0, All-later e f fs le h.1)

  insert_entry-OldestFirst :
      (e : CacheEntry) (es : List CacheEntry)
      → OldestFirst mtime es
      → OldestFirst mtime (insert_entry mtime e es)
  unfolding insert_entry
  insert_entry-OldestFirst e [] h = (tt, tt)
  insert_entry-OldestFirst e (f ∷ fs) h = elim (Bool-cases (leb (mtime e) (mtime f))) [
    | inl t ↦ let le : mtime e ≤ mtime f = ground arith in rw t ((le, All-later e f fs le h.0), h)
    | inr n ↦
        let le : mtime f ≤ mtime e = ground arith in
        rw n
          (All-insert_entry (λ g. mtime f ≤ mtime g) e fs le h.0, insert_entry-OldestFirst e fs h.1)
  ]

  sort_entries-OldestFirst : (es : List CacheEntry) → OldestFirst mtime (sort_entries mtime es)
  unfolding sort_entries
  sort_entries-OldestFirst [] = tt
  sort_entries-OldestFirst (e ∷ es) =
      insert_entry-OldestFirst e (sort_entries mtime es) (sort_entries-OldestFirst es)

-- The removal of the next entry raised, while the cache was too large.
pub record Interrupted (rmtree : Rmtree CacheEntry) (maximum : ℤ) (kept : List CacheEntry)
    (c : Cache) (end : Result (Unit {0}) × Cache) : Type 0 where
  pub next : CacheEntry
  pub later : List CacheEntry
  pub left : Cache
  pub kept_is : kept ≡ next ∷ later
  pub too_large : exceeds (size c) maximum ≡ true
  pub raised : rmtree next c ≡ some left
  pub end_is : end ≡ (raise_python os_error, left)

-- The loop has removed a first part of its entries, and ended by itself or with what a removal raised.
record Stops (rmtree : Rmtree CacheEntry) (maximum : ℤ) (es : List CacheEntry) (c : Cache)
    : Type 0 where
  removed : List CacheEntry
  kept : List CacheEntry
  split : es ≡ removed ++ kept
  needed : NeededAt maximum removed c
  ended :
      ((prune_loop rmtree maximum es c ≡ (ok tt, remove_all removed c))
        × ((exceeds (size (remove_all removed c)) maximum ≡ false) ⊎ (kept ≡ [])))
      ⊎ Interrupted rmtree maximum kept (remove_all removed c) (prune_loop rmtree maximum es c)

module _ (rmtree : Rmtree CacheEntry) (maximum : ℤ) where
  prune_loop-Stops : (es : List CacheEntry) (c : Cache) → Stops rmtree maximum es c
  unfolding prune_loop
  prune_loop-Stops [] c = record {
    removed = [];
    kept = [];
    split = refl;
    needed = tt;
    ended = inl (refl, inr refl);
  }
  prune_loop-Stops (e ∷ es) c = elim (Bool-cases (exceeds (size c) maximum)) [
    | inl t ↦ elim (Option-cases (rmtree e c)) [
      | inl gone ↦
          let rest = prune_loop-Stops es (remove_entry e c) in
          let same : prune_loop rmtree maximum (e ∷ es) c
              ≡ prune_loop rmtree maximum es (remove_entry e c) =
            rw (t, gone) refl in
          record {
            removed = e ∷ rest.removed;
            kept = rest.kept;
            split = ap (λ l. e ∷ l) rest.split;
            needed = (t, rest.needed);
            ended = elim rest.ended [
              | inl (done, small) ↦ inl (same ∙ done, small)
              | inr stopped ↦ inr (record {
                next = stopped.next;
                later = stopped.later;
                left = stopped.left;
                kept_is = stopped.kept_is;
                too_large = stopped.too_large;
                raised = stopped.raised;
                end_is = same ∙ stopped.end_is;
              })
            ];
          }
      | inr (left, raised) ↦ record {
        removed = [];
        kept = e ∷ es;
        split = refl;
        needed = tt;
        ended = inr (record {
          next = e;
          later = es;
          left = left;
          kept_is = refl;
          too_large = t;
          raised = raised;
          end_is = rw (t, raised) refl;
        });
      }
    ]
    | inr f ↦ record {
      removed = [];
      kept = e ∷ es;
      split = refl;
      needed = tt;
      ended = inl (rw f refl, inl f);
    }
  ]

module _ (mtime : CacheEntry → ℕ) where
  All-append_right :
      (P : CacheEntry → Type 0) (xs ys : List CacheEntry) → All P (xs ++ ys) → All P ys
  All-append_right P [] ys h = h
  All-append_right P (x ∷ xs) ys h = All-append_right P xs ys h.1

  OldestFirst-append :
      (xs ys : List CacheEntry)
      → OldestFirst mtime (xs ++ ys)
      → All (λ x. All (λ y. mtime x ≤ mtime y) ys) xs
  OldestFirst-append [] ys h = tt
  OldestFirst-append (x ∷ xs) ys h =
      (All-append_right (λ y. mtime x ≤ mtime y) xs ys h.0, OldestFirst-append xs ys h.1)

  -- What `_prune` has removed and kept.
  pub record Pruned (rmtree : Rmtree CacheEntry) (maximum : ℤ) (c : Cache) : Type 0 where
    pub removed : List CacheEntry
    pub kept : List CacheEntry
    pub split : sort_entries mtime (entries_of c) ≡ removed ++ kept
    pub oldest : All (λ r. All (λ k. mtime r ≤ mtime k) kept) removed
    pub needed : NeededAt maximum removed c
    pub ended :
        ((prune rmtree mtime maximum c ≡ (ok tt, remove_all removed c))
          × ((exceeds (size (remove_all removed c)) maximum ≡ false)
              ⊎ IsBare (remove_all removed c)))
        ⊎ Interrupted rmtree maximum kept (remove_all removed c) (prune rmtree mtime maximum c)

  -- `_prune` ends, for every cache and every maximum, also a negative one: it removes builds and releases one
  -- by one, none of them younger than one that it keeps and each only while the cache is larger than the
  -- maximum, until the cache is no larger than that or has no build and no release left, or until the
  -- removal of the next one, with the cache still too large, raises an OSError, which it passes on.
  pub prune-Pruned :
      (rmtree : Rmtree CacheEntry) (maximum : ℤ) (c : Cache) → Pruned rmtree maximum c
  unfolding prune
  prune-Pruned rmtree maximum c =
      let stops = prune_loop-Stops rmtree maximum (sort_entries mtime (entries_of c)) c in
      record {
        removed = stops.removed;
        kept = stops.kept;
        split = stops.split;
        oldest =
            OldestFirst-append stops.removed stops.kept (
              subst (OldestFirst mtime) stops.split
                (sort_entries-OldestFirst mtime (entries_of c)));
        needed = stops.needed;
        ended = elim stops.ended [
          | inl (done, small) ↦ inl (done, finish stops.removed stops.kept stops.split small)
          | inr stopped ↦ inr stopped
        ];
      }
    where
      finish :
          (removed kept : List CacheEntry)
          → sort_entries mtime (entries_of c) ≡ removed ++ kept
          → (exceeds (size (remove_all removed c)) maximum ≡ false) ⊎ (kept ≡ [])
          → (exceeds (size (remove_all removed c)) maximum ≡ false) ⊎ IsBare (remove_all removed c)
      finish removed kept split (inl e) = inl e
      finish removed kept split (inr none_kept) =
          let all_removed : sort_entries mtime (entries_of c) ≡ removed =
            split ∙ ap (λ l. removed ++ l) none_kept ∙ append-nil removed in
          inr (
            subst IsBare (ap (λ l. remove_all l c) all_removed)
              (remove_all-IsBare (sort_entries mtime (entries_of c)) c (sorted-Listed mtime c)))
