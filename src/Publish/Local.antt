-- ===== src/Publish/Local.antt =====
-- `local_build`: the current source, built into the cache.
use k_dash.Base.{
  String, Bool, true, false, Option, none, some, List, [], ◌∷◌, ◌++◌, contains, if◌then◌else◌,
  Result, ok, ◌>>=◌ as ◌>>=ᴿ◌,
}
use k_dash.Base.Exec.{Exec, pure, lift, ◌>>=◌, ◌>>◌}
use k_dash.Json.{Value, obj, end}
use k_dash.External.{Bytes, Libraries}
use k_dash.Model.{TargetSpec, target_dict, BuildSpec, build_spec}
use k_dash.Canonical.{normalize_args, spec_key}
use k_dash.Target.{explicit_target}
use k_dash.Artifact.{Codec}
use k_dash.Project.{Readers, load_project}
use k_dash.Project.Tree.{Entries, Fnmatch}
use k_dash.Project.Extract.{materialize_source_tree, release_objects}
use k_dash.Cache.{Files, CachedBuild, dir_name, get_build, commit_build}
use k_dash.Validation.{ReadElf, get_dict}
use k_dash.Runtime.{State}
use k_dash.Runtime.Materialize.{on_network, read_cache, write_cache}
use k_dash.Api.{Surroundings}
use k_dash.Builder.Tree.{tree_of}
use k_dash.Publish.Versions.{validate_version}
use k_dash.Publish.Objects.{Builders, ArgsFile, is_empty, load_args_files, checked_objects}

pub record LocalRequest : Type 0 where
  pub version : Value
  pub cuda : String
  pub cc : String
  pub args_files : List ArgsFile
  pub builder_image : String
  pub tvm_ffi : String
  pub use_local_jit : Bool

-- A build in the cache: its BuildKey, its directory below `builds`, whether it was there before, the release
-- and where it comes from.
pub record LocalBuild : Type 0 where
  pub key : String
  pub directory : String
  pub hit : Bool
  pub release_digest : String
  pub provenance : Value

module _ {W : Type 0} (lib : Libraries) (rd : Readers) (fnmatch : Fnmatch) (files : Files)
    (codec : Codec) (read_elf : ReadElf) (builders : Builders W) (around : Surroundings)
    (q : LocalRequest) (root : Entries) (digest : String) where
  abbrev pub local_result : (key : String) → (hit : Bool) → (provenance : Value) → LocalBuild
  local_result key hit provenance = record {
    key = key;
    directory = dir_name key;
    hit = hit;
    release_digest = digest;
    provenance = provenance;
  }

  abbrev pub build_from_root : BuildSpec → Exec W (Bytes × Value)
  build_from_root spec =
      if q.use_local_jit
      then (do
        source ← lift (materialize_source_tree lib rd fnmatch codec root false)
        builders.jit (tree_of source) spec)
      else builders.docker q.builder_image root spec

  -- What becomes of one BuildKey
  abbrev pub cached_or_built :
      BuildSpec → (key : String) → Option CachedBuild → Exec (State W) LocalBuild
  cached_or_built spec key (some (config, kernel_so)) = do
    provenance ← lift (get_dict "provenance" config)
    pure (local_result key true provenance)
  cached_or_built spec key none = do
    (kernel_so, provenance) ← on_network (build_from_root spec)
    objects ← lift (checked_objects lib codec read_elf spec kernel_so provenance)
    write_cache (commit_build files lib key objects.config kernel_so)
    pure (local_result key false provenance)

  abbrev pub build_key_once :
      BuildSpec → (key : String) → List LocalBuild → Exec (State W) (List LocalBuild)
  build_key_once spec key results = do
    cached ← read_cache (get_build files key)
    result ← cached_or_built spec key cached
    pure (results ++ (result ∷ []))

  -- The loop over the arguments, with the keys that it has seen
  unfoldable pub build_each :
      TargetSpec
      → List Value
      → (seen : List String) → List LocalBuild
      → Exec (State W) (List LocalBuild)
  build_each target [] seen results = pure results
  build_each target (args ∷ rest) seen results =
      lift (spec_key lib (build_spec digest args (target_dict target))) >>= λ key.
      let next = build_each target rest in
      if contains seen key
      then next seen results
      else build_key_once (build_spec digest args (target_dict target)) key results >>= λ more.
          next (key ∷ seen) more

module _ {W : Type 0} (lib : Libraries) (rd : Readers) (fnmatch : Fnmatch) (files : Files)
    (codec : Codec) (read_elf : ReadElf) (builders : Builders W) (around : Surroundings) where
  abbrev pub args_or_defaults : List ArgsFile → (schema : Value) → Result (List Value)
  args_or_defaults args_files schema =
      if is_empty args_files
      then (normalize_args lib (obj end) schema >>=ᴿ λ args. ok (args ∷ []))
      else load_args_files lib rd args_files schema

  unfoldable pub local_build : LocalRequest → (root : Entries) → Exec (State W) (List LocalBuild)
  unfolding build_each
  local_build q root = do
    version ← lift (validate_version q.version)
    (manifest, schema) ← lift (load_project lib rd root)
    release ← lift (release_objects lib rd fnmatch codec root version)
    target ← lift (explicit_target around.host q.cuda q.cc q.tvm_ffi)
    args ← lift (args_or_defaults q.args_files (obj schema))
    build_each lib rd fnmatch files codec read_elf builders around q root release.digest target args
        [] []
