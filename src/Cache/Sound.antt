-- ===== src/Cache/Sound.antt =====
-- A cache whose directories have names of their own and are complete, as the renames of cache.py leave it.
use k_dash.Base.{
  ◌≡◌, refl, ap, sym, subst, String, Bool, true, false, none, some, List, [], ◌∷◌, ◌==◌, eq_iff,
  All, keep, contains, IsDistinct, Bool-cases, Option-cases, Result-cases, inl, inr, ok, on_ok,
  ok_injective, arith,
}
use k_dash.Json.{Fields, obj, str, field, end}
use k_dash.External.{Bytes, Libraries}
use k_dash.Canonical.{canonical_json}
use k_dash.Artifact.{Codec}
use k_dash.Project.Extract.{Written, extract_source_archive}
use k_dash.Cache.{
  Cache, Files, BuildDir, ReleaseDir, empty_cache, find_dir, dir_name, commit_build, commit_release,
  stage_release, place_release, put_resolution,
}
use k_dash.Cache.Laws.{on_commit}

abbrev pub names {ℓ} : {A : Type ℓ} → List (String × A) → List String
names [] = []
names ((n, a) ∷ rest) = n ∷ names rest

abbrev pub IsWholeBuild : BuildDir → Type 0
IsWholeBuild dir =
    (config : Bytes) × (kernel_so : Bytes) × (dir.config ≡ some config)
    × (dir.kernel_so ≡ some kernel_so)

abbrev pub IsWholeRelease : ReleaseDir → Type 0
IsWholeRelease dir =
    (config : Bytes) × (archive : Bytes) × (source : List Written) × (dir.config ≡ some config)
    × (dir.archive ≡ some archive)
    × (dir.source ≡ some source)

-- No directory stands twice, and none lacks a file.
pub record IsSound (c : Cache) : Type 0 where
  pub distinct_builds : IsDistinct (names c.builds)
  pub distinct_releases : IsDistinct (names c.releases)
  pub whole_builds : All (λ (entry : String × BuildDir). IsWholeBuild entry.1) c.builds
  pub whole_releases : All (λ (entry : String × ReleaseDir). IsWholeRelease entry.1) c.releases

pub empty_cache-IsSound : IsSound empty_cache
empty_cache-IsSound = record {
  distinct_builds = tt;
  distinct_releases = tt;
  whole_builds = tt;
  whole_releases = tt;
}

-- Resolutions do not matter.
pub IsSound-same :
    (c d : Cache) → c.builds ≡ d.builds → c.releases ≡ d.releases → IsSound c → IsSound d
IsSound-same c d e f sound = record {
  distinct_builds =
      subst (λ (l : List (String × BuildDir)). IsDistinct (names l)) e sound.distinct_builds;
  distinct_releases =
      subst (λ (l : List (String × ReleaseDir)). IsDistinct (names l)) f sound.distinct_releases;
  whole_builds =
      subst (All (λ (entry : String × BuildDir). IsWholeBuild entry.1)) e sound.whole_builds;
  whole_releases =
      subst (All (λ (entry : String × ReleaseDir). IsWholeRelease entry.1)) f sound.whole_releases;
}

eq_swap : (x y : String) → (x == y) ≡ false → (y == x) ≡ false
eq_swap x y h = elim (Bool-cases (y == x)) [
  | inl t ↦ let e : x ≡ y = sym ((eq_iff y x).0 t) in cc ((eq_iff x y).1 e)
  | inr f ↦ f
]

find_dir-none {ℓ} :
    {A : Type ℓ} (name : String) (l : List (String × A))
    → find_dir name l ≡ none
    → contains (names l) name ≡ false
find_dir-none name [] h = refl
find_dir-none name ((n, a) ∷ rest) h = elim (Bool-cases (n == name)) [
  | inl t ↦ absurd (ground (arith, t))
  | inr f ↦
      let h' : find_dir name rest ≡ none = ground (arith, f) in
      rw (eq_swap n name f) (find_dir-none name rest h')
]

stage_release-IsWhole :
    (files : Files) (lib : Libraries) (codec : Codec) (config : Fields) (archive : Bytes)
    {dir : ReleaseDir}
    → stage_release files lib codec config archive ≡ ok dir
    → IsWholeRelease dir
unfolding stage_release
stage_release-IsWhole files lib codec config archive h =
    on_ok (canonical_json lib (obj config)) _ h λ bytes _ h1.
      on_ok (extract_source_archive codec archive) _ h1 λ source _ h2.
        subst IsWholeRelease (ok_injective h2) (bytes, archive, source, refl, refl, refl)

place_release-IsSound :
    (files : Files) (digest : String) (dir : ReleaseDir) (c : Cache) {d : Cache}
    → IsWholeRelease dir
    → IsSound c
    → place_release files digest dir c ≡ ok d
    → IsSound d
unfolding place_release
place_release-IsSound files digest dir c {d} whole sound h =
    elim (Option-cases (find_dir (dir_name digest) c.releases)) [
      | inl e ↦
          let placed : record c { releases = (dir_name digest, dir) ∷ c.releases } ≡ d =
            ground arith in
          subst IsSound placed (record {
            distinct_builds = sound.distinct_builds;
            distinct_releases =
                (find_dir-none (dir_name digest) c.releases e, sound.distinct_releases);
            whole_builds = sound.whole_builds;
            whole_releases = (whole, sound.whole_releases);
          })
      | inr (there, e) ↦ elim (Bool-cases files.reports_exists) [
        | inl t ↦ let same : c ≡ d = ground arith in subst IsSound same sound
        | inr f ↦ absurd (ground arith)
      ]
    ]

pub commit_release-IsSound :
    (files : Files) (lib : Libraries) (codec : Codec) (digest : String) (config : Fields)
    (archive : Bytes) (c : Cache) {d : Cache}
    → IsSound c
    → commit_release files lib codec digest config archive c ≡ ok d
    → IsSound d
unfolding commit_release
commit_release-IsSound files lib codec digest config archive c {d} sound h =
    elim (Option-cases (find_dir (dir_name digest) c.releases)) [
      | inl e ↦ elim (Result-cases (stage_release files lib codec config archive)) [
        | inl (dir, p) ↦
            let placed : place_release files digest dir c ≡ ok d = ground arith in
            place_release-IsSound files digest dir c
              (stage_release-IsWhole files lib codec config archive p) sound placed
        | inr (x, p) ↦ absurd (ground arith)
      ]
      | inr (there, e) ↦ let same : c ≡ d = ground arith in subst IsSound same sound
    ]

pub commit_build-IsSound :
    (files : Files) (lib : Libraries) (key : String) (config : Fields) (kernel_so : Bytes)
    (c : Cache) {d : Cache}
    → IsSound c
    → commit_build files lib key config kernel_so c ≡ ok d
    → IsSound d
commit_build-IsSound files lib key config kernel_so c sound h =
    on_commit lib files key config kernel_so c h (λ _ _ same. subst IsSound same sound)
      λ bytes fresh _ same. subst IsSound same (record {
        distinct_builds = (find_dir-none (dir_name key) c.builds fresh, sound.distinct_builds);
        distinct_releases = sound.distinct_releases;
        whole_builds = ((bytes, kernel_so, refl, refl), sound.whole_builds);
        whole_releases = sound.whole_releases;
      })

pub put_resolution-IsSound :
    (lib : Libraries) (registry kernel version digest : String) (c : Cache) {d : Cache}
    → IsSound c
    → put_resolution lib registry kernel version digest c ≡ ok d
    → IsSound d
unfolding put_resolution
put_resolution-IsSound lib registry kernel version digest c {d} sound h =
    on_ok (canonical_json lib (obj (field "release_digest" (str digest) end))) _ h λ bytes _ e.
      IsSound-same c d (ap (λ (x : Cache). x.builds) (ok_injective e))
        (ap (λ (x : Cache). x.releases) (ok_injective e)) sound

-- Taking directories away
contains-keep {ℓ} :
    {A : Type ℓ} (q : String × A → Bool) (x : String) (l : List (String × A))
    → contains (names l) x ≡ false
    → contains (names (keep q l)) x ≡ false
contains-keep {A = A} q x [] h = refl
contains-keep {A = A} q x ((n, a) ∷ rest) h = elim (Bool-cases (x == n)) [
  | inl t ↦ absurd (ground (arith, t))
  | inr f ↦
      let later : contains (names rest) x ≡ false = ground (arith, f) in
      kept f (q (n, a)) (contains-keep q x rest later)
]
  where
    kept :
        (x == n) ≡ false
        → (b : Bool) → contains (names (keep q rest)) x ≡ false
        → contains
            (names (elim b as (λ _. List (String × A)) [
              | true ↦ (n, a) ∷ keep q rest
              | false ↦ keep q rest
            ]))
            x
          ≡ false
    kept f true k = rw f k
    kept f false k = k

pub IsDistinct-keep {ℓ} :
    {A : Type ℓ} (q : String × A → Bool) (l : List (String × A))
    → IsDistinct (names l)
    → IsDistinct (names (keep q l))
IsDistinct-keep q [] h = tt
IsDistinct-keep {A = A} q ((n, a) ∷ rest) h = kept (q (n, a)) (IsDistinct-keep q rest h.1)
  where
    kept :
        (b : Bool)
        → IsDistinct (names (keep q rest))
        → IsDistinct (
            names (elim b as (λ _. List (String × A)) [
              | true ↦ (n, a) ∷ keep q rest
              | false ↦ keep q rest
            ]))
    kept true k = (contains-keep q n rest h.0, k)
    kept false k = k
