-- ===== src/Builder/Tree.antt =====
-- The directory that an unpacked archive is, which the builders read.
use k_dash.Base.{◌/◌, ◌%◌, String, Option, some, List, [], ◌∷◌, ◌==◌, nat_eq, if◌then◌else◌}
use k_dash.Project.Tree.{Node, file, directory, Entries, nil, entry, find_entry}
use k_dash.Project.Extract.{Written}

-- A file that was unpacked is a file of the tree; its owner may execute it if the mode says so.
abbrev pub file_of : Written → Node
file_of w = file (nat_eq (w.mode / 64 % 2) 1) w.content

abbrev pub children : Option Node → Entries
children (some (directory es)) = es
children _ = nil

abbrev pub set_entry : String → Node → Entries → Entries
set_entry name node nil = entry name node nil
set_entry name node (entry n m es) =
    if n == name then entry n node es else entry n m (set_entry name node es)

abbrev pub set_node : List String → Node → Entries → Entries
set_node [] node es = es
set_node (name ∷ []) node es = set_entry name node es
set_node (name ∷ next ∷ names) node es =
    set_entry name (directory (set_node (next ∷ names) node (children (find_entry name es)))) es

-- The directory below which the files were written
abbrev pub tree_of : List Written → Entries
tree_of [] = nil
tree_of (w ∷ ws) = set_node w.path (file_of w) (tree_of ws)
