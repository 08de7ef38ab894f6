-- ===== src/Builder/Docker.antt =====
-- `docker_aot` of builder.py: a build inside a container. The Docker daemon is a parameter.
pub mod Cleanup
use k_dash.Base.{
  ℕ, ◌≡◌, String, ◌<>◌, Bool, true, false, not, Option, none, some, List, [], ◌∷◌, ◌==◌, nat_eq,
  if◌then◌else◌, Result, ok, err, raise_if, Error, python_error, k_dash_error, operational,
  value_error,
}
use k_dash.Base.Exec.{Exec, pure, lift, fail, ◌>>=◌, ◌>>◌, finally}
use k_dash.Json.{Value, null, str, obj, fields, get_or_null, Fields}
use k_dash.External.{Bytes, Libraries}
use k_dash.Model.{BuildSpec}
use k_dash.Artifact.{Codec, equals_text, equals_nat}
use k_dash.Project.{Readers, or_raise}
use k_dash.Project.Tree.{Entries, Fnmatch}
use k_dash.Project.Extract.{Written, materialize_source_tree}
use k_dash.Builder.{Nix, item_of, driver_of}

-- `containers.create`
pub record ContainerRequest : Type 0 where
  pub image : String
  pub command : List String
  pub platform : String
  pub network_disabled : Bool
  pub user : String
  pub security_opt : List String
  pub nofile : ℕ
  pub volume : String
  pub bind : String

-- What is streamed into the container: the archive of the staging directory
pub record Context : Type 0 where
  pub source : List Written
  pub driver : String

-- The Docker SDK over a daemon in some state
pub record Docker (D : Type 0) : Type 0 where
  -- `import docker` finds the package
  pub installed : Bool
  -- `docker.from_env()`
  pub connect : Exec D (Unit {0})
  -- `volumes.get`, which says with an exception that there is none
  pub has_volume : String → Exec D Bool
  pub create_volume : String → Exec D (Unit {0})
  pub create : ContainerRequest → Exec D String
  pub put_archive : (container : String) → Context → Exec D Bool
  pub start : (container : String) → Exec D (Unit {0})
  pub wait : (container : String) → (timeout : ℕ) → Exec D Fields
  pub logs : (container : String) → Exec D (Unit {0})
  pub get_archive : (container path : String) → Exec D Bytes
  -- the member kernel.so of a tar archive: `none` for what is no file, and what tarfile raises
  pub extract_kernel : Bytes → Result (Option Bytes)
  pub image_id : (image : String) → Exec D String
  -- `remove(force=True)`
  pub remove : (container : String) → Exec D (Unit {0})

abbrev pub docker_error : String → Error
docker_error message = k_dash_error operational message "docker-aot"

abbrev pub store_volume : String
store_volume = "k-dash-nix-store"

abbrev pub container_request : (image : String) → (arch : Value) → ContainerRequest
container_request image arch = record {
  image = image;
  command =
      "sh"
      ∷ "-lc"
      ∷ ("nix --extra-experimental-features 'nix-command flakes' build "
          <> ("--option sandbox true --option filter-syscalls false "
              <> ("--no-link --print-out-paths --file /tmp/driver.nix > /tmp/output && "
                  <> "cp $(tail -n1 /tmp/output)/kernel.so /tmp/kernel.so")))
      ∷ [];
  platform = if equals_text "x86_64" arch then "linux/amd64" else "linux/arm64";
  network_disabled = false;
  user = "0:0";
  security_opt = "seccomp=unconfined" ∷ [];
  nofile = 65536;
  volume = store_volume;
  bind = "/nix";
}

abbrev pub docker_provenance : (image id : String) → Value
docker_provenance image id = obj (
    fields
      (("mode", str "docker-aot") ∷ ("builder_image", str image) ∷ ("builder_digest", str id) ∷ []))

module _ {D : Type 0} (lib : Libraries) (rd : Readers) (fnmatch : Fnmatch) (codec : Codec)
    (nix : Nix) (docker : Docker D) where
  unfoldable pub ensure_volume : Exec D (Unit {0})
  ensure_volume = do
    there ← docker.has_volume store_volume
    if there then pure tt else docker.create_volume store_volume

  -- A build that failed: its log is read for the message
  abbrev pub check_status : (container : String) → Fields → Exec D (Unit {0})
  check_status container status =
      if equals_nat 0 (get_or_null "StatusCode" status)
      then pure tt
      else (do docker.logs container; fail (docker_error "Docker AOT failed"))

  -- What is done with a container between its creation and its removal
  unfoldable pub run_container : (image container : String) → Context → Exec D (Bytes × Value)
  run_container image container context = do
    streamed ← docker.put_archive container context
    lift (raise_if (not streamed) (docker_error "failed to stream source into builder"))
    docker.start container
    timeout ← lift (or_raise nix.aot_timeout (python_error value_error))
    status ← docker.wait container timeout
    check_status container status
    bits ← docker.get_archive container "/tmp/kernel.so"
    extracted ← lift (docker.extract_kernel bits)
    payload ← lift (or_raise extracted (docker_error "builder returned no kernel.so"))
    id ← docker.image_id image
    pure (payload, docker_provenance image id)

  unfoldable pub docker_aot : (image : String) → Entries → BuildSpec → Exec D (Bytes × Value)
  unfolding ensure_volume run_container
  docker_aot image source spec = do
    lift (raise_if (not docker.installed) (docker_error "install k-dash[build] for Docker AOT"))
    docker.connect
    ensure_volume
    staged ← lift (materialize_source_tree lib rd fnmatch codec source false)
    driver ← lift (driver_of lib rd nix "/tmp/source" spec)
    arch ← lift (item_of "arch" spec.target)
    container ← docker.create (container_request image arch)
    finally (run_container image container (record { source = staged; driver = driver }))
        (docker.remove container)
