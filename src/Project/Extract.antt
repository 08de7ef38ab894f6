-- ===== src/Project/Extract.antt =====
-- Packing the source files into an archive, and unpacking an archive below a directory.
use k_dash.Base.{
  ℕ, ◌%◌, String, Char, code, Bool, true, false, not, ◌&&◌, ◌||◌, none, some, List, [], ◌∷◌, ◌++◌,
  ◌==◌, nat_eq, contains, map, if◌then◌else◌, Result, ok, raise, raise_if, raise_python, ◌>>=◌,
  ◌>>◌, Error, k_dash_error, contract, os_error, tar_error,
}
use k_dash.Base.Text.{starts_with}
use k_dash.Json.{int, str, obj, fields}
use k_dash.Json.Numbers.{pos}
use k_dash.External.{Bytes, Libraries}
use k_dash.Canonical.{canonical_json, digest_bytes}
use k_dash.Artifact.{Codec, Member, size_of, manifest_value, release_type, BuildObjects}
use k_dash.Project.{Readers, load_project, source_files}
use k_dash.Project.Tree.{Entries, SourceFile, Fnmatch}

abbrev pub to_member : SourceFile → Member
to_member f = record {
  name = f.path;
  is_file = true;
  mode = if f.executable then 0o755 else 0o644;
  content = f.content;
}

-- The archive of a list of files, in their order.
abbrev pub archive_of : Codec → List SourceFile → Bytes
archive_of c files = c.compress (c.write_tar (map to_member files))

abbrev pub split_char : Char → List String → List String
split_char c [] = []
split_char c (part ∷ parts) =
    if nat_eq (code c) b'/' then "" ∷ part ∷ parts else String.◌∷◌ c part ∷ parts

-- `split("/")`
abbrev pub split_slash : String → List String
split_slash String.[] = "" ∷ []
split_slash (String.◌∷◌ c s) = split_char c (split_slash s)

abbrev pub drop_trivial : List String → List String
drop_trivial [] = []
drop_trivial (p ∷ ps) = let rest = drop_trivial ps in if p == "" || p == "." then rest else p ∷ rest

-- The parts of a path below its root
abbrev pub relative_parts : String → List String
relative_parts name = drop_trivial (split_slash name)

-- `PurePosixPath(name).is_absolute()`
abbrev pub is_absolute : String → Bool
is_absolute name = starts_with name "/"

-- The root of a path: none of a relative one, and two slashes where it starts with just two
abbrev pub root_of : String → List String
root_of name =
    if is_absolute name
    then (if starts_with name "//" && not (starts_with name "///") then "//" ∷ [] else "/" ∷ [])
    else []

-- `PurePosixPath(name).parts`
abbrev pub parts : String → List String
parts name = root_of name ++ relative_parts name

-- A file that was written, by the parts that were joined to the destination: with a root in front they lead
-- out of it, since `joinpath` starts anew there.
pub record Written : Type 0 where
  pub path : List String
  pub mode : ℕ
  pub content : Bytes

abbrev pub same_path : List String → List String → Bool
same_path [] [] = true
same_path (p ∷ ps) (q ∷ qs) = p == q && same_path ps qs
same_path _ _ = false

-- The first path leads to a directory above the second.
abbrev pub is_above : List String → List String → Bool
is_above [] (q ∷ qs) = true
is_above (p ∷ ps) (q ∷ qs) = p == q && is_above ps qs
is_above _ _ = false

-- A directory that would have to be a file, or a file that would have to be a directory
abbrev pub is_blocked : List String → List Written → Bool
is_blocked path [] = false
is_blocked path (w ∷ ws) = is_above path w.path || is_above w.path path || is_blocked path ws

abbrev pub overwrite : Written → List Written → List Written
overwrite f [] = f ∷ []
overwrite f (w ∷ ws) = if same_path f.path w.path then f ∷ ws else w ∷ overwrite f ws

abbrev pub is_empty_path : List String → Bool
is_empty_path [] = true
is_empty_path (p ∷ ps) = false

-- `target.parent.mkdir(…)`, `write_bytes` and `chmod`
abbrev pub write_file : Written → List Written → Result (List Written)
write_file f ws =
    if is_empty_path f.path || is_blocked f.path ws
    then raise_python os_error
    else ok (overwrite f ws)

abbrev pub unsafe_member : Error
unsafe_member = k_dash_error contract "unsafe source archive member" "source-extract"

abbrev pub is_unsafe : Member → Bool
is_unsafe m = is_absolute m.name || contains (parts m.name) ".." || not m.is_file

-- The loop over the members; `extractfile` of a regular file is never None.
unfoldable pub extract_members : List Member → List Written → Result (List Written)
extract_members [] ws = ok ws
extract_members (m ∷ ms) ws = do
  raise_if (is_unsafe m) unsafe_member
  written ← write_file (record { path = parts m.name; mode = m.mode % 512; content = m.content }) ws
  extract_members ms written

module _ (c : Codec) where
  abbrev pub decompress_source : Bytes → Result Bytes
  decompress_source payload = elim (c.decompress payload) [
    | none ↦ raise contract "invalid zstd source archive" "source-extract"
    | some raw ↦ ok raw
  ]

  abbrev pub source_members : Bytes → Result (List Member)
  source_members raw = elim (c.read_tar raw) [ none ↦ raise_python tar_error | some ms ↦ ok ms ]

  -- What stands below an empty destination afterwards.
  unfoldable pub extract_source_archive : Bytes → Result (List Written)
  unfolding extract_members
  extract_source_archive payload = do
    raw ← decompress_source payload
    members ← source_members raw
    extract_members members []

module _ (lib : Libraries) (rd : Readers) (fnmatch : Fnmatch) (c : Codec) where
  unfoldable pub source_archive : Entries → Result Bytes
  unfolding source_files
  source_archive root = source_files lib rd fnmatch root >>= λ files. ok (archive_of c files)

  -- `has_entries`: the destination exists and is not empty.
  unfoldable pub materialize_source_tree : Entries → (has_entries : Bool) → Result (List Written)
  unfolding source_archive extract_source_archive
  materialize_source_tree root has_entries = do
    raise_if has_entries
        (k_dash_error contract "build staging directory must be empty" "source-stage")
    payload ← source_archive root
    extract_source_archive c payload

  unfoldable pub release_objects : Entries → (version : String) → Result BuildObjects
  unfolding source_archive
  release_objects root version = do
    (manifest, schema) ← load_project lib rd root
    layer ← source_archive root
    let config = fields (
        ("protocol_version", int (pos 1))
        ∷ ("kernel", str manifest.name)
        ∷ ("version", str version)
        ∷ ("args_schema", obj schema)
        ∷ (
          "source",
          obj (fields (("digest", str (digest_bytes lib layer)) ∷ ("size", size_of layer) ∷ [])),
        )
        ∷ [])
    config_bytes ← canonical_json lib (obj config)
    manifest_bytes ← canonical_json lib (
        manifest_value lib release_type "application/vnd.k-dash.release.config.v1+json"
          "application/vnd.k-dash.source.v1.tar+zstd" config_bytes layer)
    ok (record {
      config = config;
      config_bytes = config_bytes;
      layer = layer;
      manifest_bytes = manifest_bytes;
      digest = digest_bytes lib manifest_bytes;
    })
