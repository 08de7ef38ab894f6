-- ===== src/Tests/Network.antt =====
-- Two registries of which the primary cannot be reached, and what is resolved there.
use k_dash.Base.{
  ℕ, suc, ◌≡◌, refl, String, ◌<>◌, Bool, true, false, not, ◌||◌, Option, none, some, List, [], ◌∷◌,
  ◌==◌, if◌then◌else◌, Result, ok, err, Error, k_dash_error, registry_access_failure,
  artifact_not_found, inr,
}
use k_dash.Json.{Value, null, str, obj, end}
use k_dash.Model.{RegistryConfig, RegistrySet, primary}
use k_dash.Oci.{Manifest}
use k_dash.Cache.{Cache, empty_cache, get_resolution}
use k_dash.Runtime.{Registries, State, is_dev, resolve_release}
use k_dash.Runtime.Resolution.{resolve_release_offline, resolve_release_dev, resolve_release_again}
use k_dash.Tests.Fixtures.{artifact}
use k_dash.Tests.Stores.{store_libraries, files, read_back, resolved_cache}

abbrev pub registry : (name : String) → (is_primary : Bool) → RegistryConfig
registry name is_primary = record {
  name = name;
  url = "r";
  repository_prefix = "";
  primary = is_primary;
  verify_tls = true;
  ca_bundle = null;
  auth = obj end;
}

abbrev pub registries : RegistrySet
registries = registry "main" true ∷ registry "mirror" false ∷ []

abbrev pub unreachable : Error
unreachable = k_dash_error registry_access_failure "registry request failed" "registry-access"

abbrev pub absent : Error
absent = k_dash_error artifact_not_found "artifact does not exist" "registry-manifest"

-- The network counts the requests; `outcome` is what the primary answers.
abbrev pub network : (outcome : Result Manifest) → Registries ℕ
network outcome = record {
  get_manifest = λ r kernel reference n.
      ((if r.name == "main" then outcome else ok ("sha256:iii,", 3 ∷ [], end)), suc n);
  pull = λ r kernel reference artifact_type n. (ok artifact, suc n);
}

abbrev cut_off : Registries ℕ
cut_off = network (err unreachable)

abbrev fresh : State ℕ
fresh = record { cache = empty_cache; world = 0 }

abbrev after : State ℕ
after = record { cache = resolved_cache; world = 2 }

resolved :
    resolve_release store_libraries files cut_off "owner/axpy" "1.0" false registries fresh
    ≡ (ok (str "sha256:iii,", registry "mirror" false), after)
unfolding resolve_release k_dash.Model.primary k_dash.Model.secondaries k_dash.Cache.get_resolution
    k_dash.Cache.put_resolution k_dash.Canonical.canonical_json k_dash.Base.Text.strip_prefix
    k_dash.Base.Text.replace_char k_dash.Json.get_field
resolved = refl

resolve_release_offline_example :
    (resolve_release store_libraries files cut_off "owner/axpy" "1.0" true registries fresh).1
    ≡ fresh
resolve_release_offline_example =
    resolve_release_offline store_libraries files cut_off "owner/axpy" "1.0" registries fresh

main_is_primary : primary registries ≡ ok (registry "main" true)
unfolding primary
main_is_primary = refl

resolve_release_again_example :
    (p : RegistryConfig) × (primary registries ≡ ok p)
    × (resolve_release store_libraries files cut_off "owner/axpy" "1.0" true registries after
        ≡ (ok (str "sha256:iii,", p), after))
resolve_release_again_example =
    resolve_release_again store_libraries files cut_off "owner/axpy" "1.0" read_back false true
      registries fresh after after (str "sha256:iii,") (registry "mirror" false) refl resolved refl

dev_is_dev : is_dev "dev-a" ≡ true
unfolding k_dash.Base.Text.strip_prefix
dev_is_dev = refl

abbrev dev_after : State ℕ
dev_after = record {
  cache = record empty_cache {
    resolutions = (("main" ∷ "owner" ∷ "axpy" ∷ "dev-a.json" ∷ []), 5 ∷ []) ∷ [];
  };
  world = 1;
}

abbrev pub connected : Registries ℕ
connected = network (ok ("sha256:iii,", 3 ∷ [], end))

dev_resolved :
    resolve_release store_libraries files connected "owner/axpy" "dev-a" false registries fresh
    ≡ (ok (str "sha256:iii,", registry "main" true), dev_after)
unfolding resolve_release k_dash.Model.primary k_dash.Model.secondaries k_dash.Cache.get_resolution
    k_dash.Cache.put_resolution k_dash.Canonical.canonical_json k_dash.Base.Text.strip_prefix
    k_dash.Base.Text.replace_char k_dash.Json.get_field
dev_resolved = refl

resolve_release_dev_example : primary registries ≡ ok (registry "main" true)
resolve_release_dev_example =
    resolve_release_dev store_libraries files connected "owner/axpy" "dev-a" read_back false
      registries fresh dev_after (str "sha256:iii,") (registry "main" true) dev_is_dev dev_resolved
