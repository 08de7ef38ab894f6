-- ===== src/Tests/Builds.antt =====
-- A kernel.so that needs libc and libcudart, and its config.
use k_dash.Base.{ℕ, ◌≡◌, refl, String, true, none, some, Option, List, [], ◌∷◌, ok}
use k_dash.Json.{Value, null, str, arr, obj, Fields, fields, items}
use k_dash.Validation.{Elf, ReadElf, needed, other_tag, validate_kernel_so, validate_build_config}
use k_dash.Validation.Portable.{
  IsPortable, IsBuildOf, validate_kernel_so-IsPortable, validate_build_config-IsBuildOf,
}
use k_dash.Tests.Fixtures.{libraries}

abbrev elf : Elf
elf = record {
  machine = "EM_X86_64";
  dynamic = needed "libc.so.6" ∷ other_tag ∷ needed "libcudart.so.12" ∷ [];
  version_names = "GLIBC_2.2.5" ∷ "GLIBC_2.17" ∷ "GLIBC_PRIVATE" ∷ [];
}

abbrev read_elf : ReadElf
read_elf = λ payload. some elf

abbrev config : Fields
config = fields (
    ("kernel_so_digest", str "sha256:i,")
    ∷ ("build_key", str "sha256:i,ii,")
    ∷ ("release_digest", str "sha256:iii,")
    ∷ (
      "buildspec",
      obj (
          fields (
            ("release_digest", str "sha256:iii,")
            ∷ ("target", obj (fields (("arch", str "x86_64") ∷ [])))
            ∷ [])),
    )
    ∷ (
      "host_dependencies",
      arr (items (obj (fields (("soname", str "libcudart.so.12") ∷ [])) ∷ [])),
    )
    ∷ ("cxx_runtime", null)
    ∷ [])

portable : validate_kernel_so libraries read_elf (1 ∷ []) config true ≡ ok tt
unfolding validate_kernel_so k_dash.Json.get_field k_dash.Base.Text.strip_prefix
    k_dash.Validation.Versions.maximum_version k_dash.Base.Decimal.take_digits
    k_dash.Validation.Versions.tuple_lt k_dash.Validation.Versions.version_tuple
    k_dash.Base.Decimal.number_from
portable = refl

validate_kernel_so-IsPortable_example : IsPortable libraries read_elf (1 ∷ []) config
validate_kernel_so-IsPortable_example =
    validate_kernel_so-IsPortable libraries read_elf (1 ∷ []) config portable

built : validate_build_config libraries config "sha256:i,ii," "sha256:iii," ≡ ok tt
unfolding validate_build_config k_dash.Canonical.build_key k_dash.Json.get_field
built = refl

validate_build_config-IsBuildOf_example : IsBuildOf libraries config "sha256:i,ii," "sha256:iii,"
validate_build_config-IsBuildOf_example =
    validate_build_config-IsBuildOf libraries config "sha256:i,ii," "sha256:iii," built
