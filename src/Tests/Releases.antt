-- ===== src/Tests/Releases.antt =====
-- A release that is pulled by its digest.
use k_dash.Base.{
  ℕ, suc, ◌≡◌, refl, String, true, none, List, [], ◌∷◌, ◌==◌, if◌then◌else◌, Result, ok,
}
use k_dash.Json.{Value, null, int, str, arr, obj, nil, Fields, end, fields, items}
use k_dash.External.{Bytes, Scan, complete, broken, Libraries}
use k_dash.Model.{RegistryConfig}
use k_dash.Artifact.{oci_manifest, release_type}
use k_dash.Oci.{PulledArtifact}
use k_dash.Oci.Pull.{IsVerified}
use k_dash.Runtime.{Credentials, pull_release, oci_registries}
use k_dash.Runtime.Release.{IsRelease, pull_release-IsRelease}
use k_dash.Tests.Fixtures.{libraries, described, http, tally}

abbrev release_manifest : Fields
release_manifest = fields (
    ("mediaType", str oci_manifest)
    ∷ ("artifactType", str release_type)
    ∷ ("config", described "application/json" "sha256:i," 1)
    ∷ ("layers", arr (items (described "application/octet-stream" "sha256:ii," 1 ∷ [])))
    ∷ [])

abbrev release_config : Fields
release_config =
    fields (("kernel", str "k") ∷ ("source", obj (fields (("digest", str "sha256:ii,") ∷ []))) ∷ [])

abbrev scan_release : Bytes → Scan
scan_release content =
    if tally content == "i,"
    then complete (obj release_config)
    else if tally content == "iii,"
    then complete (obj release_manifest)
    else broken nil

abbrev release_libraries : Libraries
release_libraries = record libraries { scan_json = scan_release }

abbrev main : RegistryConfig
main = record {
  name = "main";
  url = "r";
  repository_prefix = "";
  primary = true;
  verify_tls = true;
  ca_bundle = null;
  auth = obj end;
}

abbrev anyone : Credentials
anyone = λ r. ok none

abbrev release : PulledArtifact
release = record {
  digest = "sha256:iii,";
  manifest = release_manifest;
  manifest_bytes = 3 ∷ [];
  config = release_config;
  config_bytes = 1 ∷ [];
  layers = (2 ∷ []) ∷ [];
}

released :
    (pull_release release_libraries
      (oci_registries release_libraries http anyone)
      main
      "k"
      "sha256:iii,"
      0).0
    ≡ ok release
unfolding pull_release k_dash.Oci.Methods.pull k_dash.Base.Text.strip_left
    k_dash.Artifact.parse_json_blob k_dash.Artifact.verify_descriptor
    k_dash.Canonical.loads_no_duplicates k_dash.Json.get_field k_dash.Json.set_field
released = refl

pull_release-IsRelease_example :
    IsVerified release_libraries release_type release
    × IsRelease release_libraries "k" "sha256:iii," release
pull_release-IsRelease_example =
    pull_release-IsRelease release_libraries http anyone main "k" "sha256:iii," 0 {a = release}
      released
