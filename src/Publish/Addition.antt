-- ===== src/Publish/Addition.antt =====
-- `publish_build`: one more build for a release that is published.
use k_dash.Base.{
  String, not, List, [], ◌∷◌, ◌==◌, if◌then◌else◌, Result, ok, raise_if, raise_python, type_error,
  index_error, Error, k_dash_error, artifact_integrity,
}
use k_dash.Base.Exec.{Exec, pure, lift, ◌>>=◌, ◌>>◌}
use k_dash.Json.{Value, str, obj}
use k_dash.External.{Libraries}
use k_dash.Model.{target_dict, build_spec, RegistryConfig, RegistrySet}
use k_dash.Canonical.{spec_key, build_tag}
use k_dash.Config.{load_registry_set}
use k_dash.Target.{explicit_target}
use k_dash.Artifact.{Codec, equals_text}
use k_dash.Project.{Readers, load_project}
use k_dash.Project.Tree.{Entries, Fnmatch}
use k_dash.Project.Extract.{extract_source_archive}
use k_dash.Cache.{Files}
use k_dash.Validation.{ReadElf}
use k_dash.Runtime.{Registries, State, is_dev, first_layer, resolve_release, pull_release}
use k_dash.Runtime.Materialize.{on_network}
use k_dash.Api.{Surroundings, args_schema}
use k_dash.Builder.Tree.{tree_of}
use k_dash.Publish.Versions.{validate_version}
use k_dash.Publish.Objects.{
  Clients, Builders, ArgsFile, Materialized, materialized_of, put_text, load_args_files,
  checked_objects,
}
use k_dash.Publish.Release.{bound_digest, same_or_none}

abbrev pub addition_error : String → Error
addition_error message = k_dash_error artifact_integrity message "publish-build"

-- A digest that is no text cannot stand in the URL of a manifest.
abbrev pub reference_text : Value → Result String
reference_text (str s) = ok s
reference_text _ = raise_python type_error

abbrev pub first_args : List Value → Result Value
first_args [] = raise_python index_error
first_args (args ∷ rest) = ok args

pub record AdditionRequest : Type 0 where
  pub version : Value
  pub cuda : String
  pub cc : String
  pub args_file : ArgsFile
  pub builder_image : String
  pub tvm_ffi : String

pub record Addition : Type 0 where
  pub release_digest : String
  pub build_key : String
  pub registries : List (String × String)

module _ {W : Type 0} (clients : Clients W) where
  -- One registry: what it has is not replaced.
  unfoldable pub add_to :
      (kernel : String)
      → Materialized
      → RegistryConfig
      → List (String × String)
      → Exec W (List (String × String))
  add_to kernel m r results = lift (clients.open_client r kernel) >>= λ c.
      lift (build_tag m.key) >>= λ tag. bound_digest clients c tag >>= λ existing.
      lift (
        raise_if (not (same_or_none clients m.digest existing))
          (addition_error "NonReproducibleBuild"))
      >>= λ _. clients.push c tag m.config_bytes (m.layer ∷ []) m.manifest_bytes >>= λ actual.
          lift (
            raise_if (not (actual == m.digest))
              (addition_error "registry changed Build manifest digest"))
          >>= λ _. pure (put_text r.name actual results)

  unfoldable pub add_to_all :
      (kernel : String)
      → Materialized
      → RegistrySet
      → List (String × String)
      → Exec W (List (String × String))
  unfolding add_to
  add_to_all kernel m [] results = pure results
  add_to_all kernel m (r ∷ rs) results =
      add_to kernel m r results >>= λ next. add_to_all kernel m rs next

module _ {W : Type 0} (lib : Libraries) (rd : Readers) (fnmatch : Fnmatch) (files : Files)
    (codec : Codec) (read_elf : ReadElf) (builders : Builders W) (clients : Clients W)
    (net : Registries W) (around : Surroundings) where
  -- A development version must still be the release that was built.
  abbrev pub check_moved :
      RegistrySet → (kernel version digest : String) → Exec (State W) (Unit {0})
  check_moved registries kernel version digest =
      if is_dev version
      then (do
        (current, authority) ←
            resolve_release lib files net kernel version around.offline registries
        lift (raise_if (not (equals_text digest current)) (addition_error "DevVersionMoved")))
      else pure tt

  unfoldable pub publish_build : AdditionRequest → (root : Entries) → Exec (State W) Addition
  unfolding add_to_all
  publish_build q root = do
    version ← lift (validate_version q.version)
    (project, schema) ← lift (load_project lib rd root)
    registries ← lift (load_registry_set around.urlparse around.config_file)
    (resolved, authority) ←
        resolve_release lib files net project.name version around.offline registries
    digest ← lift (reference_text resolved)
    release ← on_network (pull_release lib net authority project.name digest)
    schema' ← lift (args_schema (obj release.config))
    values ← lift (load_args_files lib rd (q.args_file ∷ []) schema')
    args ← lift (first_args values)
    target ← lift (explicit_target around.host q.cuda q.cc q.tvm_ffi)
    key ← lift (spec_key lib (build_spec digest args (target_dict target)))
    layer ← lift (first_layer release.layers)
    source ← lift (extract_source_archive codec layer)
    (kernel_so, provenance) ← on_network (
        builders.docker q.builder_image (tree_of source)
          (build_spec digest args (target_dict target)))
    objects ← lift (
        checked_objects lib codec read_elf (build_spec digest args (target_dict target)) kernel_so
          provenance)
    check_moved registries project.name version digest
    results ←
        on_network (add_to_all clients project.name (materialized_of key objects) registries [])
    pure (record { release_digest = digest; build_key = key; registries = results })
