-- ===== src/Builder/Driver.antt =====
-- `_driver_expression` of builder.py: the Nix expression that a build evaluates.
use k_dash.Base.{String, ◌<>◌, List, [], ◌∷◌, ◌++◌}

-- The text of some lines, each with its end
abbrev pub unlines : List String → String
unlines [] = ""
unlines (line ∷ lines) = line <> ("\n" <> unlines lines)

-- The package sets, which are the same for every build
abbrev pub package_sets : List String
package_sets =
    "  hasCuteDsl = builtins.hasAttr \"cutedsl-toolchain\" flake.inputs;"
    ∷ "  hasCompatNixpkgs = builtins.hasAttr \"compat-nixpkgs\" flake.inputs;"
    ∷ "  cuteDslOverlays =" ∷ "    if hasCuteDsl then ["
    ∷ "      (import ((builtins.getAttr \"cutedsl-toolchain\" flake.inputs) + \"/nix-builder/overlay.nix\") {"
    ∷ "        builderProvenance = null;" ∷ "      })" ∷ "    ] else [ ];"
    ∷ "  basePkgs = import flake.inputs.nixpkgs {" ∷ "    inherit system;"
    ∷ "    config.allowUnfree = true;" ∷ "  };" ∷ "  cudaPkgs = import flake.inputs.cuda-nixpkgs {"
    ∷ "    inherit system;" ∷ "    config.allowUnfree = true;" ∷ "    overlays = cuteDslOverlays;"
    ∷ "  };" ∷ "  compatPkgs = if hasCompatNixpkgs then"
    ∷ "    import flake.inputs.compat-nixpkgs {" ∷ "      inherit system;"
    ∷ "      config.allowUnfree = true;" ∷ "    }" ∷ "  else basePkgs;"
    ∷ "  manylinuxHostCc = if hasCompatNixpkgs then" ∷ "    basePkgs.wrapCCWith {"
    ∷ "      cc = compatPkgs.gcc11.cc;" ∷ "      bintools = basePkgs.stdenv.cc.bintools;"
    ∷ "      libc = basePkgs.glibc;" ∷ "    }" ∷ "  else basePkgs.stdenv.cc;"
    ∷ "  pkgs = basePkgs // {" ∷ "    cudaPackages_12_8 = cudaPkgs.cudaPackages_12_8;"
    ∷ "    # GCC 11 supplies the compiler and C++ headers.  The wrapper supplies the"
    ∷ "    # base pin's glibc 2.27 headers, CRT and linker paths; kernel build.nix can"
    ∷ "    # then select a compatible dynamic libstdc++/libgcc at final link time."
    ∷ "    manylinuxHostStdenv = basePkgs.overrideCC basePkgs.stdenv manylinuxHostCc;"
    ∷ "  } // (if builtins.hasAttr \"cudaPackages_13\" cudaPkgs then {"
    ∷ "    cudaPackages_13 = cudaPkgs.cudaPackages_13;"
    ∷ "  } else { }) // (if builtins.hasAttr \"cudaPackages_13_0\" cudaPkgs then {"
    ∷ "    cudaPackages_13_0 = cudaPkgs.cudaPackages_13_0;"
    ∷ "  } else { }) // (if hasCuteDsl then {"
    ∷ "    cutePythonEnv = cudaPkgs.python313.withPackages (ps: [ ps.nvidia-cutlass-dsl ]);"
    ∷ "  } else { });" ∷ []

-- The expression, for the source, the system and the BuildSpec as JSON texts
unfoldable pub driver_expression : (source system spec : String) → String
driver_expression source system spec = unlines (
    ("let"
      ∷ ("  source = builtins.path { path = " <> (source <> "; name = \"kernel-source\"; };"))
      ∷ "  flake = builtins.getFlake ("
      ∷ "    builtins.unsafeDiscardStringContext (\"path:\" + toString source)"
      ∷ "  );"
      ∷ ("  system = " <> (system <> ";"))
      ∷ [])
    ++ (package_sets
        ++ (("  buildSpec = builtins.fromJSON " <> (spec <> ";"))
            ∷ "in import (source + \"/build.nix\") { inherit pkgs buildSpec; }"
            ∷ [])))
