-- ===== src/Lib.antt =====
-- k-dash publishes GPU kernels to OCI registries and loads them at run time. A project directory
-- becomes a release (its sources, in one layer), a release built for a target and for arguments becomes
-- a build (its kernel.so, in one layer), and both are stored under the sha256 digest of their manifests.
-- A build is found again by its BuildKey, the digest of the canonical form of release digest, normalised
-- arguments and target. Paths below are from the root of the repository.
--
-- The parts, and the files that model them:
--   src/k_dash/errors.py     Base/Errors.antt: the exception classes, and `Result` for code that raises.
--   src/k_dash/model.py      Model.antt: the dataclasses as records; RegistrySet is the list that it holds.
--   src/k_dash/canonical.py  Canonical.antt. `loads_no_duplicates`, `apply_defaults` (for _apply_defaults),
--                            `validate_i_json` (for _validate_i_json), `normalize_args`, `canonical_json`,
--                            `digest_bytes`, `build_key` and `build_tag` are the functions of these names.
--   src/k_dash/target.py     Target.antt. The regular expressions are written as matchers.
--   src/k_dash/config.py     Config.antt: `load_registry_set`; `load_entry` is one round of its loop.
--   src/k_dash/artifact.py   Artifact.antt.
--   src/k_dash/oci.py        Oci.antt has the data and what is done with a response, Oci/Methods.antt the
--                            methods of OCIClient, as computations over a session (the bearer token and the
--                            network) that keep what was changed before an exception.
--   src/k_dash/project.py    Project.antt loads a project and selects its files; Project/Names.antt has the
--                            kernel name, Project/Tree.antt the walk, Project/Extract.antt the archives.
--   src/k_dash/cache.py      Cache.antt: releases and builds by the names of their directories, resolutions by their
--                            paths. `stage_build` and `place_build` are the two halves of `commit_build`, before
--                            and at the rename.
--   src/k_dash/runtime.py    Runtime.antt: `resolve_release` and `pull_release`, on a state of cache and network.
--                            `Registries` is what it asks of registries, and `oci_registries` fills it.
--                            Runtime/Materialize.antt: `find_binary` (for _binary_registry) and `materialize`.
--   src/k_dash/api.py        Api.antt: `get`, over what the process reads of its surroundings; Api/Load.antt:
--                            `load`, with the modules that are loaded and the process as state. `load_path` is
--                            what it does with the path that `get` returns.
--   src/k_dash/validation.py Validation.antt: the checks of a build config and of kernel.so, over what pyelftools
--                            reads of a file; Validation/Versions.antt: symbol versions;
--                            Validation/Dependencies.antt: `infer_host_dependencies`; Validation/Host.antt: the
--                            running host, a process with the libraries that it opened, with its checks in
--                            Host/Packages.antt (`validate_host_dependencies`) and Host/Cxx.antt
--                            (`validate_host_cxx_runtime`).
--   src/k_dash/builder.py    Builder.antt: `local_jit` and `nix_aot`; Builder/Driver.antt: the Nix expression (for
--                            _driver_expression); Builder/Docker.antt: `docker_aot`, over the state of a daemon;
--                            Builder/Tree.antt: the directory that an unpacked archive is.
--   src/k_dash/publish.py    Publish/Versions.antt, Publish/Objects.antt (what is read and written),
--                            Publish/Builds.antt (the loop over targets and arguments), Publish/Release.antt
--                            (`publish_release`: `prepare` is all up to the last build, `check_all` asks the
--                            registries, `push_all` pushes, `commit_all` fills the cache), Publish/Local.antt
--                            (`local_build`) and Publish/Addition.antt (`publish_build`). They ask an interface
--                            of clients and one of builders, which Publish/Parts.antt fills with the OCI client
--                            and with the three builders.
--   src/k_dash/templates.py  Templates.antt: `init_project`; Templates/Texts.antt: the texts that it writes.
--   src/k_dash/cli.py        Cli.antt: `parse_size` (for _size) and `prune` (for _prune); Cli/Run.antt:
--                            `run_command` (for _run) and `main`, from what argparse returns.
--   Credentials (`_resolve_basic_auth` of src/k_dash/oci.py) stand in Oci/Credentials.antt.
-- Json.antt has the values that Python code passes as `Any`: a dict keeps its keys in order, and a key
-- that is no text stands as `odd`. External.antt names what is called and not written here. The files
-- below a part that are not named above hold proofs; Tests has concrete inputs.
--
-- Parameters: sha256, the scanner of the json module (which finds a value whole, or broken with the parts
-- that were closed before the break), rfc8785, jsonschema, requests and the server behind it, zstandard,
-- tarfile, tomllib, fnmatch, yaml, urlparse, pyelftools, what the file system reports of a rename onto a
-- directory (Files), Nix (a command gives an output and leaves a directory), the Docker daemon, the dynamic
-- linker and the installed packages (Linker), tvm_ffi (Loader), float and str.upper (Numerals), base64 and
-- the environment (Machine), the files of src/k_dash/template_data and json.dumps (Resources), the times of
-- modification and what a removal by shutil.rmtree leaves when it raises (Rmtree). What a theorem needs of them is a hypothesis: that sha256 is written with 64 characters (IsHex), that given byte strings are no sha256
-- collision (NoCollision), that compression and an archive of one file are undone by their inverses
-- (IsLossless), that json.loads reads back the texts that rfc8785 wrote (IsReadBack) and finds the members
-- of a dict in it with their canonical forms (IsCanonical), what each call of the
-- daemon does to the number of containers (Counts), that a registry keeps what is pushed and that asking it
-- or building pushes nothing (Appends, ReadsOnly), that a text is decoded as it was encoded,
-- tomllib reads three lines of a number, a name and a number, and the JSON scanner reads back the schema
-- that json.dumps printed (IsReadable).
--
-- No recursion runs on fuel: the defaults are filled in by recursion on the schema, loading and validation
-- by recursion on the value, the walk by recursion on the directory tree, publication by recursion on the
-- lists of targets, arguments, builds and registries, pruning by recursion on the entries left.
--
-- Not modelled: the context of an exception, Python's limit on the digits of an `int` text and on the depth
-- of recursion, headers other than the ones read, the effect of time-outs, locks, the names of temporary
-- directories, the parser of the command line (argparse), what is printed to the standard error, the
-- re-exports of src/k_dash/__init__.py, the example and the unit tests.
pub mod Base
pub mod Json
pub mod External
pub mod Model
pub mod Canonical
pub mod Target
pub mod Config
pub mod Artifact
pub mod Oci
pub mod Project
pub mod Cache
pub mod Validation
pub mod Runtime
pub mod Api
pub mod Builder
pub mod Publish
pub mod Templates
pub mod Cli
pub mod Tests
