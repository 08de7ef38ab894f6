-- ===== src/Builder/Output.antt =====
-- What a build by Nix returns, and what Nix was asked for it.
use k_dash.Base.{List, [], ◌∷◌, ◌++◌, ◌<>◌, ◌⊎◌, ◌≡◌, String, true, some, ok}
use k_dash.Json.{Value, str}
use k_dash.External.{Bytes, Libraries}
use k_dash.Model.{BuildSpec, spec_dict}
use k_dash.Canonical.{canonical_json}
use k_dash.Project.{Readers}
use k_dash.Project.Tree.{Entries, nil, entry, find_entry, is_file_node, content_of}
use k_dash.Builder.{Nix, NixCommand, item_of}
use k_dash.Builder.Driver.{unlines, package_sets}

-- Every entry of a directory is called kernel.so.
abbrev pub OnlyKernel : Entries → Type 0
OnlyKernel nil = Unit
OnlyKernel (entry name node es) = (name ≡ "kernel.so") × OnlyKernel es

-- The line is one of those of the text.
abbrev pub HasLine : (line text : String) → Type 0
HasLine line text =
    (before : List String) × (after : List String) × (text ≡ unlines (before ++ (line ∷ after)))

-- The system that Nix has for the architecture of a target
abbrev pub IsSystem : (target : Value) → (system : String) → Type 0
IsSystem target system =
    ((item_of "arch" target ≡ ok (str "x86_64")) × (system ≡ "x86_64-linux"))
    ⊎ ((item_of "arch" target ≡ ok (str "aarch64")) × (system ≡ "aarch64-linux"))

-- Nix ran on the source with the driver for the BuildSpec, and left the kernel.so alone in a directory.
pub record IsNixBuild (lib : Libraries) (rd : Readers) (nix : Nix) (source : Entries)
    (spec : BuildSpec) (kernel_so : Bytes) : Type 0 where
  pub system : String
  pub content : Bytes
  pub text : String
  pub command : NixCommand
  pub stdout : String
  pub directory : String
  pub system_is : IsSystem spec.target system
  pub text_is : (canonical_json lib (spec_dict spec) ≡ ok content) × (rd.decode content ≡ some text)
  pub source_is : command.source ≡ source
  pub reads_source :
      HasLine
        ("  source = builtins.path { path = "
          <> (nix.dumps nix.source_path <> "; name = \"kernel-source\"; };"))
        command.driver
  pub for_system : HasLine ("  system = " <> (nix.dumps system <> ";")) command.driver
  pub for_spec :
      HasLine ("  buildSpec = builtins.fromJSON " <> (nix.dumps text <> ";")) command.driver
  pub ran : nix.run command ≡ some stdout
  pub only : OnlyKernel (nix.directory_at directory)
  pub is_file : is_file_node (find_entry "kernel.so" (nix.directory_at directory)) ≡ true
  pub kernel_is : kernel_so ≡ content_of (find_entry "kernel.so" (nix.directory_at directory))

-- The lines behind the system
abbrev end_lines : (spec : String) → List String
end_lines spec =
    package_sets
    ++ (("  buildSpec = builtins.fromJSON " <> (spec <> ";"))
        ∷ "in import (source + \"/build.nix\") { inherit pkgs buildSpec; }"
        ∷ [])
