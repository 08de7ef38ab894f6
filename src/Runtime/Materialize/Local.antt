-- ===== src/Runtime/Materialize/Local.antt =====
-- What a kernel.so that is built after a Binary Miss may need.
use k_dash.Base.{
  ◌≡◌, sym, ap, subst, String, true, false, some, List, [], ◌∷◌, All, Result, ok, ok_injective,
}
use k_dash.Base.Exec.{lift, on_run}
use k_dash.Json.{Value, arr, nil, Fields}
use k_dash.External.{Bytes, Libraries}
use k_dash.Model.{BuildSpec}
use k_dash.Artifact.{Codec}
use k_dash.Project.Extract.{Written, is_absolute}
use k_dash.Cache.{Files}
use k_dash.Validation.{
  Elf, ReadElf, needed_of, readable, cxx_runtime_requirement, is_allowed, validate_kernel_so,
}
use k_dash.Validation.Portable.{IsPortable, validate_kernel_so-IsPortable}
use k_dash.Runtime.{Registries, State}
use k_dash.Runtime.Materialize.{LocalJit, Built, local_config, cxx_runtime_value, build_locally}

abbrev pub NeedsBaseOnly : ReadElf → Bytes → Type 0
NeedsBaseOnly read_elf kernel_so =
    (elf : Elf) × (read_elf kernel_so ≡ some elf)
    × All (λ s. is_allowed [] s ≡ true) (needed_of elf.dynamic)

allowed_of :
    (declared names : List String)
    → [] ≡ declared
    → All (λ s. (is_absolute s ≡ false) × (is_allowed declared s ≡ true)) names
    → All (λ s. is_allowed [] s ≡ true) names
allowed_of declared [] e h = tt
allowed_of declared (s ∷ names) e (h, hs) =
    (subst (λ d. is_allowed d s ≡ true) (sym e) h.1, allowed_of declared names e hs)

module _ {W : Type 0} (lib : Libraries) (files : Files) (codec : Codec) (read_elf : ReadElf)
    (jit : LocalJit) (net : Registries W) where
  portable-NeedsBaseOnly :
      (spec : BuildSpec) (key : String) (provenance cxx : Value) (described kernel_so : Bytes)
      → IsPortable lib read_elf kernel_so
          (local_config lib files codec read_elf jit net spec key provenance cxx described)
      → NeedsBaseOnly read_elf kernel_so
  unfolding k_dash.Json.get_field
  portable-NeedsBaseOnly spec key provenance cxx described kernel_so p = (
    p.elf,
    p.elf_is,
    allowed_of p.declared (needed_of p.elf.dynamic) (ok_injective p.declared_is) p.libraries,
  )

  -- A build that `build_locally` returns needs no library but those of the base, libtvm_ffi and the loader:
  -- its config declares no host dependencies, so a kernel that needs libcudart, which is published with
  -- that dependency declared, is never built after a Binary Miss.
  pub build_locally-NeedsBaseOnly :
      (spec : BuildSpec) (key : String) (source : List Written) (s t : State W) (config : Fields)
      (kernel_so : Bytes)
      → build_locally lib files codec read_elf jit net spec key source s
        ≡ (ok (config, kernel_so), t)
      → NeedsBaseOnly read_elf kernel_so
  unfolding build_locally
  build_locally-NeedsBaseOnly spec key source s t config kernel_so h =
      on_run (lift (jit source spec)) _ s h λ built u _ h1.
        on_run (lift (readable (read_elf built.0))) _ u h1 λ elf v _ h2.
          on_run
            (lift (
              validate_kernel_so lib read_elf built.0
                (local_config lib files codec read_elf jit net spec key built.1
                  (cxx_runtime_value (cxx_runtime_requirement elf)) built.0)
                true))
            _ v h2
            λ _ w passed h3.
              let pair = ok_injective (ap (λ (x : Result Built × State W). x.0) h3) in
              subst (NeedsBaseOnly read_elf) (ap (λ (x : Built). x.1) pair) (
                portable-NeedsBaseOnly spec key built.1
                  (cxx_runtime_value (cxx_runtime_requirement elf)) built.0 built.0
                  (validate_kernel_so-IsPortable lib read_elf built.0 _
                    (ap (λ (x : Result (Unit {0}) × State W). x.0) passed)))
