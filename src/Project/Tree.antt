-- ===== src/Project/Tree.antt =====
-- The directory tree of a project, and the walk over it.
use Prim.Native.String
use text.Mathlib.Text.{is_le}
use k_dash.Base.{
  String, ◌<>◌, Bool, true, false, ◌||◌, Option, none, some, List, [], ◌∷◌, ◌++◌, ◌==◌,
  if◌then◌else◌,
}
use k_dash.Base.Text.{strip_right, is_slash}
use k_dash.External.{Bytes}

-- A symbolic link is what it leads to: a regular file with its contents, or anything else.
mutual
  pub data Node : Type 0 where
    file : (executable : Bool) (content : Bytes) → Node
    directory : Entries → Node
    link_to_file : (content : Bytes) → Node
    other_link : Node
    special : Node

  pub data Entries : Type 0 where
    nil : Entries
    entry : String → Node → Entries → Entries

abbrev pub find_entry : String → Entries → Option Node
find_entry name nil = none
find_entry name (entry n node es) = if n == name then some node else find_entry name es

-- `is_file()`, which follows links
abbrev pub is_file_node : Option Node → Bool
is_file_node (some (file x content)) = true
is_file_node (some (link_to_file content)) = true
is_file_node _ = false

abbrev pub content_of : Option Node → Bytes
content_of (some (file x content)) = content
content_of (some (link_to_file content)) = content
content_of _ = []

-- A file to package: its path from the root, and whether it is executable.
pub record SourceFile : Type 0 where
  pub path : String
  pub executable : Bool
  pub content : Bytes

abbrev pub Fnmatch : Type 0
Fnmatch = (name pattern : String) → Bool

-- The order of the encoded paths is that of their code points.
abbrev pub insert_file : SourceFile → List SourceFile → List SourceFile
insert_file f [] = f ∷ []
insert_file f (g ∷ gs) =
    if is_le (String.compare f.path g.path) then f ∷ g ∷ gs else g ∷ insert_file f gs

unfoldable pub sort_files : List SourceFile → List SourceFile
sort_files [] = []
sort_files (f ∷ fs) = insert_file f (sort_files fs)

abbrev pub join_path : (prefix name : String) → String
join_path prefix name = if prefix == "" then name else prefix <> ("/" <> name)

module _ (fnmatch : Fnmatch) where
  abbrev pub is_ignored : List String → String → Bool
  is_ignored [] path = false
  is_ignored (p ∷ ps) path = fnmatch path p || is_ignored ps path

  abbrev pub is_pruned : List String → String → Bool
  is_pruned [] path = false
  is_pruned (p ∷ ps) path =
      fnmatch path (strip_right is_slash p) || fnmatch (path <> "/") p || is_pruned ps path

  -- os.walk from the top, with the ignored directories taken out of the walk.
  unfoldable mutual
    pub walk : List String → (prefix : String) → Entries → List SourceFile
    walk patterns prefix nil = []
    walk patterns prefix (entry name node es) =
        walk_node patterns (join_path prefix name) node ++ walk patterns prefix es

    pub walk_node : List String → (path : String) → Node → List SourceFile
    walk_node patterns path (file x content) =
        if is_ignored patterns path
        then []
        else record { path = path; executable = x; content = content } ∷ []
    walk_node patterns path (directory es) =
        let inside = walk patterns path es in if is_pruned patterns path then [] else inside
    walk_node patterns path (link_to_file content) = []
    walk_node patterns path other_link = []
    walk_node patterns path special = []
