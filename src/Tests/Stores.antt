-- ===== src/Tests/Stores.antt =====
-- A cache, and a network of two registries.
use k_dash.Base.{
  ℕ, suc, ◌≡◌, ◌≢◌, ◌∙◌, ◌⊎◌, refl, sym, ap, subst, String, ◌<>◌, Bool, true, false, not, ◌&&◌,
  ◌||◌, Option, none, some, inl, inr, List, [], ◌∷◌, ◌==◌, eq_iff, arith, if◌then◌else◌, Result, ok,
  err, raise_python, os_error, value_error, Bool-cases, Error, k_dash_error,
  registry_access_failure, artifact_not_found,
}
use k_dash.Json.{
  Value, null, bool, int, float, str, arr, obj, other, Fields, end, field, odd, get_or_null,
}
use k_dash.External.{Bytes, Libraries}
use k_dash.Cache.{
  BuildDir, Cache, Files, empty_cache, find_dir, get_build, commit_build, resolution_path,
  put_resolution, get_resolution,
}
use k_dash.Cache.Laws.{
  IsReadBack, commit_build-keeps, get_build-commit_build, get_resolution-put_resolution,
}
use k_dash.Tests.Fixtures.{libraries, tally}

abbrev pub entry : (key text : String) → Value
entry key text = obj (field key (str text) end)

abbrev pub is_entry : (key text : String) → Value → Bool
is_entry key text (obj (field k (str s) end)) = k == key && s == text
is_entry key text _ = false

abbrev pub resolution : Value
resolution = entry "release_digest" "sha256:iii,"

abbrev pub build_config : Value
build_config = entry "build_key" "sha256:i,"

abbrev pub pick : (is_resolution is_build : Bool) → String ⊎ Bytes
pick true b = inr (5 ∷ [])
pick false true = inr (6 ∷ [])
pick false false = inl "unsupported"

-- rfc8785 for the two dicts above, and nothing else.
abbrev pub write : Value → String ⊎ Bytes
write v = pick (is_entry "release_digest" "sha256:iii," v) (is_entry "build_key" "sha256:i," v)

abbrev pub store_libraries : Libraries
store_libraries = record libraries { jcs = write }

abbrev pub read : Bytes → Result Value
read bytes =
    if tally bytes == "iiiii,"
    then ok resolution
    else if tally bytes == "iiiiii,"
    then ok build_config
    else raise_python value_error

abbrev pub files : Files
files = record { read_json = read; reports_exists = false }

is_entry-eq : (key text : String) (v : Value) → is_entry key text v ≡ true → v ≡ entry key text
is_entry-eq key text (obj (field k (str s) end)) h = ground (arith, eq_iff k key, eq_iff s text)
is_entry-eq key text (obj (field k (str s) (field j w fs))) h = cc
is_entry-eq key text (obj (field k (str s) (odd w fs))) h = cc
is_entry-eq key text (obj (field k null fs)) h = cc
is_entry-eq key text (obj (field k (bool b) fs)) h = cc
is_entry-eq key text (obj (field k (int n) fs)) h = cc
is_entry-eq key text (obj (field k (float x) fs)) h = cc
is_entry-eq key text (obj (field k (arr vs) fs)) h = cc
is_entry-eq key text (obj (field k (obj gs) fs)) h = cc
is_entry-eq key text (obj (field k other fs)) h = cc
is_entry-eq key text (obj (odd v fs)) h = cc
is_entry-eq key text (obj end) h = cc
is_entry-eq key text null h = cc
is_entry-eq key text (bool b) h = cc
is_entry-eq key text (int n) h = cc
is_entry-eq key text (float x) h = cc
is_entry-eq key text (str s) h = cc
is_entry-eq key text (arr vs) h = cc
is_entry-eq key text other h = cc

written :
    (a b : Bool) {bytes : Bytes}
    → pick a b ≡ inr bytes
    → ((a ≡ true) × (bytes ≡ 5 ∷ [])) ⊎ ((b ≡ true) × (bytes ≡ 6 ∷ []))
written true b h = inl (refl, cc)
written false true h = inr (refl, cc)
written false false h = cc

write-read : (v : Value) (bytes : Bytes) → write v ≡ inr bytes → read bytes ≡ ok v
write-read v bytes h =
    elim (written (is_entry "release_digest" "sha256:iii," v) (is_entry "build_key" "sha256:i," v)
      h) [
        | inl (t, e) ↦
            subst (λ b. read b ≡ ok v) (sym e)
              (ap ok (sym (is_entry-eq "release_digest" "sha256:iii," v t)))
        | inr (t, e) ↦
            subst (λ b. read b ≡ ok v) (sym e)
              (ap ok (sym (is_entry-eq "build_key" "sha256:i," v t)))
      ]

pub read_back : IsReadBack store_libraries files
read_back = record { read_json-jcs = λ fs bytes h. (fs, write-read (obj fs) bytes h, λ k s e. e) }

abbrev stored : BuildDir
stored = record { config = some (6 ∷ []); kernel_so = some (127 ∷ []) }

abbrev one_build : Cache
one_build = record empty_cache { builds = ("i,", stored) ∷ [] }

committed :
    commit_build files store_libraries "sha256:i,"
      (field "build_key" (str "sha256:i,") end)
      (127 ∷ [])
      empty_cache
    ≡ ok one_build
unfolding commit_build k_dash.Base.Text.strip_prefix k_dash.Canonical.canonical_json
committed = refl

get_build-commit_build_example :
    (gs : Fields) × (get_build files "sha256:i," one_build ≡ ok (some (obj gs, 127 ∷ [])))
    × ((k s : String)
        → get_or_null k (field "build_key" (str "sha256:i,") end) ≡ str s
        → get_or_null k gs ≡ str s)
unfolding k_dash.Json.get_field
get_build-commit_build_example =
    get_build-commit_build store_libraries files "sha256:i,"
      (field "build_key" (str "sha256:i,") end) (127 ∷ []) empty_cache one_build read_back refl refl
      committed

kept :
    commit_build files store_libraries "sha256:i,"
      (field "build_key" (str "sha256:i,") end)
      (1 ∷ [])
      one_build
    ≡ ok one_build
unfolding commit_build k_dash.Base.Text.strip_prefix k_dash.Canonical.canonical_json
kept = refl

commit_build-keeps_example : find_dir "i," one_build.builds ≡ some stored
commit_build-keeps_example =
    commit_build-keeps store_libraries files "sha256:i," "i,"
      (field "build_key" (str "sha256:i,") end) (1 ∷ []) one_build one_build stored kept refl

abbrev pub resolved_cache : Cache
resolved_cache = record empty_cache {
  resolutions = (("main" ∷ "owner" ∷ "axpy" ∷ "1.0.json" ∷ []), 5 ∷ []) ∷ [];
}

put :
    put_resolution store_libraries "main" "owner/axpy" "1.0" "sha256:iii," empty_cache
    ≡ ok resolved_cache
unfolding put_resolution k_dash.Base.Text.strip_prefix k_dash.Base.Text.replace_char
    k_dash.Canonical.canonical_json
put = refl

get_resolution-put_resolution_example :
    (get_resolution files "main" "owner/axpy" "1.0" resolved_cache ≡ ok (str "sha256:iii,"))
    × ((registry' kernel' version' : String)
        → resolution_path "main" "owner/axpy" "1.0" ≢ resolution_path registry' kernel' version'
        → get_resolution files registry' kernel' version' resolved_cache
          ≡ get_resolution files registry' kernel' version' empty_cache)
get_resolution-put_resolution_example =
    get_resolution-put_resolution store_libraries files "main" "owner/axpy" "1.0" "sha256:iii,"
      empty_cache resolved_cache read_back put
