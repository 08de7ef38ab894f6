-- ===== src/Tests/Building.antt =====
-- A Nix that builds, a Docker daemon that counts its containers, a project that is made, and a cache that is
-- pruned.
use k_dash.Base.{
  raise_python, os_error, ℕ, suc, ◌+◌, ◌-◌, ◌≡◌, refl, ap, sym, String, Bool, true, false, Option,
  none, some, List, [], ◌∷◌, ◌==◌, ok, err, Result, Error, k_dash_error, operational, ◌>>=◌, ◌>>◌,
  length, arith, if◌then◌else◌,
}
use k_dash.Json.{Value, null, int, str, arr, obj, end, Fields, field, fields, items}
use k_dash.Json.Numbers.{pos}
use k_dash.Model.{BuildSpec, build_spec}
use k_dash.Project.{Readers, load_project}
use k_dash.Project.Tree.{file, Entries, nil, entry}
use k_dash.Project.Names.{validate_kernel_name}
use k_dash.Cache.{Cache, Rmtree, empty_cache}
use k_dash.Validation.{Elf, needed, other_tag}
use k_dash.Validation.Dependencies.{infer_host_dependencies}
use k_dash.Builder.{Nix, default_builder_image, local_jit}
use k_dash.Builder.Docker.{Docker, docker_aot}
use k_dash.Builder.Docker.Cleanup.{Counts, docker_aot-containers}
use k_dash.Cli.{CacheEntry, a_build, a_release}
use k_dash.Cli.Oldest.{Pruned, prune-Pruned}
use k_dash.Tests.Fixtures.{libraries, codec}
use k_dash.Tests.Publishing.{publish_libraries, readers, matches_nothing, root}

abbrev output : Entries
output = entry "kernel.so" (file true (1 ∷ [])) nil

abbrev nix : Nix
nix = record {
  installed = true;
  run = λ command. some "/nix/store/axpy\n";
  directory_at = λ path. output;
  temporary = "/tmp/k-dash";
  source_path = "/tmp/k-dash/source";
  search_path = "/usr/bin";
  home = "/root";
  max_jobs = "auto";
  jit_timeout = some 1800;
  aot_timeout = some 1800;
  offline = false;
  dumps = λ text. text;
}

abbrev line_readers : Readers
line_readers = record readers { splitlines = λ text. text ∷ [] }

abbrev spec : BuildSpec
spec = build_spec "sha256:iii," (obj end) (obj (field "arch" (str "x86_64") end))

jit_built :
    local_jit libraries line_readers nix root spec
    ≡ ok (1 ∷ [], obj (fields (("mode", str "local-jit") ∷ ("nix_output", str "axpy") ∷ [])))
unfolding local_jit k_dash.Cli.prune k_dash.Cache.size k_dash.Json.get_field
    k_dash.Canonical.canonical_json k_dash.Base.Text.strip_right k_dash.Base.Text.strip_left
jit_built = refl

-- The daemon is the number of its containers; every build in it fails.
abbrev docker : Docker ℕ
docker = record {
  installed = true;
  connect = λ n. (ok tt, n);
  has_volume = λ v n. (ok false, n);
  create_volume = λ v n. (ok tt, n);
  create = λ request n. (ok "container", suc n);
  put_archive = λ c context n. (ok true, n);
  start = λ c n. (ok tt, n);
  wait = λ c timeout n. (ok (field "StatusCode" (int (pos 1)) end), n);
  logs = λ c n. (ok tt, n);
  get_archive = λ c path n. (ok [], n);
  extract_kernel = λ bits. ok (some bits);
  image_id = λ image n. (ok "sha256:image", n);
  remove = λ c n. (ok tt, n - 1);
}

ok-err : {x : Error} → ◌≡◌ {A = Result String} (ok "container") (err x) → ⊥
ok-err h = cc

counts : Counts docker (λ n. n)
counts = record {
  connects = λ d. refl;
  looks = λ v d. refl;
  stores = λ v d. refl;
  creates = λ request d h. sym (ap (λ (x : Result String × ℕ). x.1) h);
  refuses = λ request d h. absurd (ok-err (ap (λ (x : Result String × ℕ). x.0) h));
  streams = λ c context d. refl;
  starts = λ c d. refl;
  waits = λ c n d. refl;
  prints = λ c d. refl;
  fetches = λ c path d. refl;
  identifies = λ image d. refl;
  removes = λ c d. refl;
}

docker_aot-containers_example :
    (docker_aot publish_libraries readers matches_nothing codec nix docker default_builder_image
      root spec 2).1
    ≡ 2
docker_aot-containers_example =
    docker_aot-containers publish_libraries readers matches_nothing codec nix docker (λ n. n) counts
      default_builder_image root spec 2

failed_build :
    (docker_aot publish_libraries readers matches_nothing codec nix docker default_builder_image
      root spec 2).0
    ≡ err (k_dash_error operational "Docker AOT failed" "docker-aot")
unfolding docker_aot k_dash.Cli.prune k_dash.Cache.size
    k_dash.Project.Extract.materialize_source_tree k_dash.Base.Text.strip_right
    k_dash.Base.Text.strip_left k_dash.Json.get_field validate_kernel_name
    k_dash.Canonical.loads_no_duplicates k_dash.Base.Text.strip_prefix k_dash.Builder.driver_of
    k_dash.Canonical.canonical_json
failed_build = refl

abbrev elf : Elf
elf = record {
  machine = "EM_X86_64";
  dynamic =
      needed "libcudart.so.12" ∷ other_tag ∷ needed "libc.so.6" ∷ needed "libcublas.so.12" ∷ [];
  version_names = [];
}

abbrev config : Fields
config = field "host_dependencies" (arr (infer_host_dependencies elf)) end

inferred :
    infer_host_dependencies elf
    ≡ items (
        k_dash.Validation.Dependencies.dependency "libcublas.so.12" "cublas"
        ∷ k_dash.Validation.Dependencies.dependency "libcudart.so.12" "cuda-runtime"
        ∷ [])
unfolding infer_host_dependencies docker_aot k_dash.Cli.prune k_dash.Cache.size
    k_dash.Project.Extract.materialize_source_tree k_dash.Base.Text.strip_right
    k_dash.Base.Text.strip_left k_dash.Json.get_field validate_kernel_name
    k_dash.Canonical.loads_no_duplicates k_dash.Base.Text.strip_prefix k_dash.Builder.driver_of
    k_dash.Canonical.canonical_json
inferred = refl

-- Two builds and a release, of which the older build is removed.
abbrev full : Cache
full = record empty_cache {
  builds =
      ("new", record { config = some (1 ∷ []); kernel_so = some (2 ∷ 3 ∷ []) })
      ∷ ("old", record { config = some (1 ∷ []); kernel_so = some (2 ∷ 3 ∷ []) })
      ∷ [];
  releases = ("iii,", record { config = some (1 ∷ []); archive = some []; source = some [] }) ∷ [];
}

abbrev pub age : CacheEntry → ℕ
age (a_build name) = if name == "old" then 1 else 3
age (a_release name) = 2

-- Nothing raises, except for the removal of the entry named here.
abbrev pub removes_all_but : (name : String) → Rmtree CacheEntry
removes_all_but name (a_build n) c = if n == name then some c else none
removes_all_but name (a_release n) c = if n == name then some c else none

prune-Pruned_example : Pruned age (removes_all_but "") (pos 4) full
prune-Pruned_example = prune-Pruned age (removes_all_but "") (pos 4) full

pruned : k_dash.Cli.prune (removes_all_but "") age (pos 4) full ≡ (
  ok tt,
  record full {
    builds = ("new", record { config = some (1 ∷ []); kernel_so = some (2 ∷ 3 ∷ []) }) ∷ [];
  },
)
unfolding k_dash.Cli.prune k_dash.Cache.size k_dash.Cli.remove_entry
pruned = refl

interrupted :
    k_dash.Cli.prune (removes_all_but "old") age (pos 4) full ≡ (raise_python os_error, full)
unfolding k_dash.Cli.prune k_dash.Cache.size
interrupted = refl
