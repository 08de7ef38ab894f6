-- ===== src/Cache/Laws.antt =====
-- What is put into the cache is found there, and what is found there stays.
use k_dash.Base.{
  ◌≡◌, ◌≢◌, refl, sym, ap, subst, String, true, false, Option, none, some, inl, inr, List, [], ◌∷◌,
  ◌==◌, eq_iff, eq_refl, arith, if◌then◌else◌, Result, ok, Option-cases, Bool-cases, Result-cases,
  on_ok, ◌>>=◌, ok_injective,
}
use k_dash.Json.{Value, null, obj, str, Fields, end, field, get_or_null}
use k_dash.External.{Bytes, Libraries}
use k_dash.Canonical.BuildKey.{canonical_json-eq-ok}
use k_dash.Canonical.{canonical_json}
use k_dash.Project.Extract.{same_path}
use k_dash.Cache.{
  get_value, BuildDir, Cache, Files, find_dir, find_path, set_path, dir_name, get_build,
  place_build, stage_build, commit_build, resolution_path, put_resolution, get_resolution,
}

-- json.loads reads what rfc8785 wrote: a dict again, in which the texts at the keys are the same.
pub record IsReadBack (lib : Libraries) (files : Files) : Type 0 where
  pub read_json-jcs :
      (fs : Fields) (bytes : Bytes)
      → lib.jcs (obj fs) ≡ inr bytes
      → (gs : Fields) × (files.read_json bytes ≡ ok (obj gs))
        × ((k s : String) → get_or_null k fs ≡ str s → get_or_null k gs ≡ str s)

same_path_refl : (path : List String) → same_path path path ≡ true
same_path_refl [] = refl
same_path_refl (p ∷ ps) = rw (eq_refl p) (same_path_refl ps)

same_path-eq : (p q : List String) → same_path p q ≡ true → p ≡ q
same_path-eq [] [] h = refl
same_path-eq [] (y ∷ q) h = cc
same_path-eq (x ∷ p) [] h = cc
same_path-eq (x ∷ p) (y ∷ q) h = ground (arith, eq_iff x y, same_path-eq p q)

none_some {ℓ κ} : {A : Type ℓ} {R : Type κ} {o : Option A} {a : A} → o ≡ none → o ≡ some a → R
none_some p q = cc

find_dir-cons {ℓ} :
    {A : Type ℓ} (name other : String) (a b : A) (dirs : List (String × A))
    → find_dir other dirs ≡ none
    → find_dir name dirs ≡ some b
    → find_dir name ((other, a) ∷ dirs) ≡ some b
find_dir-cons name other a b dirs h k = elim (Bool-cases (other == name)) [
  | inl t ↦
      let same : other ≡ name = (eq_iff other name).0 t in
      none_some (subst (λ n. find_dir n dirs ≡ none) same h) k
  | inr f ↦ rw f k
]

find_path-set_path {ℓ} :
    {A : Type ℓ} (path : List String) (a : A) (rest : List (List String × A))
    → find_path path (set_path path a rest) ≡ some a
find_path-set_path path a [] = rw (same_path_refl path) refl
find_path-set_path path a ((p, b) ∷ rest) = elim (Bool-cases (same_path p path)) [
  | inl t ↦ rw t (rw t refl)
  | inr f ↦ rw f (rw f (find_path-set_path path a rest))
]

find_path-set_other {ℓ} :
    {A : Type ℓ} (path other : List String) (a : A) (rest : List (List String × A))
    → same_path path other ≡ false
    → find_path other (set_path path a rest) ≡ find_path other rest
find_path-set_other path other a [] h = rw h refl
find_path-set_other path other a ((p, b) ∷ rest) h = elim (Bool-cases (same_path p path)) [
  | inl t ↦
      let differs : same_path p other ≡ false =
        subst (λ q. same_path q other ≡ false) (sym (same_path-eq p path t)) h in
      rw t (rw differs refl)
  | inr f ↦
      rw f (
        ap (λ o. if same_path p other then some b else o) (find_path-set_other path other a rest h))
]

different_paths : (p q : List String) → p ≢ q → same_path p q ≡ false
different_paths p q h = elim (Bool-cases (same_path p q)) [
  | inl t ↦ absurd (h (same_path-eq p q t))
  | inr f ↦ f
]

find_dir_same {ℓ} :
    {A : Type ℓ} (name : String) (a : A) (dirs : List (String × A))
    → find_dir name ((name, a) ∷ dirs) ≡ some a
find_dir_same name a dirs = rw (eq_refl name) refl

get_build-found :
    (files : Files) (key : String) (c : Cache) (gs : Fields) (bytes kernel_so : Bytes)
    → find_dir (dir_name key) c.builds
      ≡ some (record { config = some bytes; kernel_so = some kernel_so })
    → files.read_json bytes ≡ ok (obj gs)
    → get_or_null "build_key" gs ≡ str key
    → get_build files key c ≡ ok (some (obj gs, kernel_so))
unfolding get_build
get_build-found files key c gs bytes kernel_so found read named = ground (arith, eq_refl key)

get_resolution-found :
    (files : Files) (registry kernel version digest : String) (c : Cache) (gs : Fields)
    (bytes : Bytes)
    → find_path (resolution_path registry kernel version) c.resolutions ≡ some bytes
    → files.read_json bytes ≡ ok (obj gs)
    → get_or_null "release_digest" gs ≡ str digest
    → get_resolution files registry kernel version c ≡ ok (str digest)
unfolding get_resolution
get_resolution-found files registry kernel version digest c gs bytes found read named = ground arith

get_resolution-same_path :
    (files : Files) (registry kernel version : String) (c d : Cache)
    → find_path (resolution_path registry kernel version) d.resolutions
      ≡ find_path (resolution_path registry kernel version) c.resolutions
    → get_resolution files registry kernel version d
      ≡ get_resolution files registry kernel version c
unfolding get_resolution
get_resolution-same_path files registry kernel version c d h =
    ap
      (λ o. elim o as (λ _. Result Value) [
        | none ↦ ok null
        | some bytes ↦ files.read_json bytes >>= λ content. get_value "release_digest" content
      ])
      h

module _ (lib : Libraries) (files : Files) where
  -- Inversion of `commit_build`: it leaves the cache, or adds the directory that it staged.
  pub on_commit {μ} :
      {R : Type μ} (key : String) (config : Fields) (kernel_so : Bytes) (c : Cache) {d : Cache}
      → commit_build files lib key config kernel_so c ≡ ok d
      → ((dir : BuildDir) → find_dir (dir_name key) c.builds ≡ some dir → c ≡ d → R)
      → ((bytes : Bytes)
          → find_dir (dir_name key) c.builds ≡ none
          → canonical_json lib (obj config) ≡ ok bytes
          → record c {
            builds =
                (dir_name key, record { config = some bytes; kernel_so = some kernel_so })
                ∷ c.builds;
          }
            ≡ d
          → R)
      → R
  unfolding commit_build stage_build place_build
  on_commit key config kernel_so c {d} h k l =
      elim (Option-cases (find_dir (dir_name key) c.builds)) [
        | inl e ↦ elim (Result-cases (canonical_json lib (obj config))) [
          | inl (bytes, p) ↦ l bytes e p (ground arith)
          | inr (x, p) ↦ absurd (ground arith)
        ]
        | inr (dir, e) ↦ k dir e (ground (arith, e))
      ]

  -- Whatever is committed, a build that is in the cache stays there unchanged.
  pub commit_build-keeps :
      (key name : String) (config : Fields) (kernel_so : Bytes) (c d : Cache) (dir : BuildDir)
      → commit_build files lib key config kernel_so c ≡ ok d
      → find_dir name c.builds ≡ some dir
      → find_dir name d.builds ≡ some dir
  commit_build-keeps key name config kernel_so c d dir h found =
      on_commit key config kernel_so c h
        (λ _ _ same. subst (λ (x : Cache). find_dir name x.builds ≡ some dir) same found)
        λ bytes fresh _ same.
          subst (λ (x : Cache). find_dir name x.builds ≡ some dir) same
            (find_dir-cons name (dir_name key) _ dir c.builds fresh found)

  -- A build whose config names its BuildKey, once it is committed to a cache that had no such directory, is
  -- what `get_build` returns: the same kernel.so, and a config with the same texts, whatever BuildSpec
  -- the config holds.
  pub get_build-commit_build :
      (key : String) (config : Fields) (kernel_so : Bytes) (c d : Cache)
      → IsReadBack lib files
      → get_or_null "build_key" config ≡ str key
      → find_dir (dir_name key) c.builds ≡ none
      → commit_build files lib key config kernel_so c ≡ ok d
      → (gs : Fields) × (get_build files key d ≡ ok (some (obj gs, kernel_so)))
        × ((k s : String) → get_or_null k config ≡ str s → get_or_null k gs ≡ str s)
  get_build-commit_build key config kernel_so c d back named fresh h =
      on_commit key config kernel_so c h (λ dir found _. none_some fresh found)
        λ bytes _ p same.
          let (gs, read, kept) =
            back.read_json-jcs config bytes (canonical_json-eq-ok lib (obj config) p) in
          (
            gs,
            subst (λ (x : Cache). get_build files key x ≡ ok (some (obj gs, kernel_so))) same
                (get_build-found files key _ gs bytes kernel_so
                  (find_dir_same (dir_name key) _ c.builds) read (kept "build_key" key named)),
            kept,
          )

  -- A resolution that is put is the one that is found, and the others stay as they are.
  pub get_resolution-put_resolution :
      (registry kernel version digest : String) (c d : Cache)
      → IsReadBack lib files
      → put_resolution lib registry kernel version digest c ≡ ok d
      → (get_resolution files registry kernel version d ≡ ok (str digest))
        × ((registry' kernel' version' : String)
            → resolution_path registry kernel version ≢ resolution_path registry' kernel' version'
            → get_resolution files registry' kernel' version' d
              ≡ get_resolution files registry' kernel' version' c)
  unfolding put_resolution k_dash.Json.get_field
  get_resolution-put_resolution registry kernel version digest c d back h =
      on_ok (canonical_json lib (obj (field "release_digest" (str digest) end))) _ h λ bytes p h1.
        let same = ok_injective h1 in
        let (gs, read, kept) = back.read_json-jcs _ bytes (canonical_json-eq-ok lib _ p) in
        subst
          (λ (x : Cache).
            (get_resolution files registry kernel version x ≡ ok (str digest))
            × ((registry' kernel' version' : String)
                → resolution_path registry kernel version
                  ≢ resolution_path registry' kernel' version'
                → get_resolution files registry' kernel' version' x
                  ≡ get_resolution files registry' kernel' version' c))
          same
          (
            get_resolution-found files registry kernel version digest _ gs bytes
                (find_path-set_path (resolution_path registry kernel version) bytes c.resolutions)
                read (kept "release_digest" digest refl),
            λ registry' kernel' version' differs.
                get_resolution-same_path files registry' kernel' version' c _ (
                  find_path-set_other (resolution_path registry kernel version)
                    (resolution_path registry' kernel' version') bytes c.resolutions
                    (different_paths _ _ differs)),
          )
