-- ===== src/Validation/Portable.antt =====
-- What a kernel.so and a build config are that pass validation.
use k_dash.Base.{
  sym, ◌≡◌, ◌∙◌, refl, ap, subst, String, Bool, true, false, not, ◌&&◌, ◌||◌, Option, none, some,
  List, [], ◌∷◌, ◌==◌, eq_iff, All, ok, raise_if-eq-ok, on_ok, on_pass, on_unit, ok_injective,
}
use k_dash.Json.{Value, null, bool, int, float, str, arr, obj, other, nil, Fields, end, get_or_null}
use k_dash.External.{Bytes, Libraries}
use k_dash.Config.{get_or}
use k_dash.Cache.{get_value}
use k_dash.Canonical.{build_key, digest_bytes}
use k_dash.Artifact.{equals_text}
use k_dash.Artifact.Laws.{equals_text-eq}
use k_dash.Project.Extract.{is_absolute}
use k_dash.Validation.{
  get_dict, machine_of, Elf, ReadElf, needed_of, has_run_path, required_versions, max_glibc,
  max_glibcxx, max_cxxabi, check_maximum, differs, declared_of, has_absolute, is_allowed,
  all_allowed, readable, expected_machine, check_libraries, check_baseline, validate_kernel_so,
  spec_of, validate_build_config,
}
use k_dash.Validation.Versions.{version_tuple, is_version, tuple_lt, maximum_version}
use k_dash.Validation.Maximum.{IsUpTo, maximum_version-IsUpTo}

-- Every version with the prefix is up to the ceiling.
abbrev pub AllUpTo : (prefix maximum : String) → List String → Type 0
AllUpTo prefix maximum names =
    All (λ v. is_version prefix v ≡ true → IsUpTo (version_tuple v) (version_tuple maximum)) names

-- The machine for each of the two architectures of a target
abbrev pub IsMachine : (arch : Value) → (machine : String) → Type 0
IsMachine arch machine =
    (arch ≡ str "x86_64" → machine ≡ "EM_X86_64") × (arch ≡ str "aarch64" → machine ≡ "EM_AARCH64")

-- The target of a config has an architecture, and this is its machine.
pub record HasMachine (config : Fields) (machine : String) : Type 0 where
  pub spec : Fields
  pub target : Fields
  pub spec_is : get_or "buildspec" (obj end) config ≡ obj spec
  pub target_is : get_or "target" (obj end) spec ≡ obj target
  pub machine_is : IsMachine (get_or_null "arch" target) machine

-- A kernel.so that any host of the baseline can load.
pub record IsPortable (lib : Libraries) (read_elf : ReadElf) (payload : Bytes) (config : Fields)
    : Type 0 where
  pub elf : Elf
  pub declared : List String
  pub digest_is : get_or_null "kernel_so_digest" config ≡ str (digest_bytes lib payload)
  pub elf_is : read_elf payload ≡ some elf
  pub machine : HasMachine config elf.machine
  pub no_run_path : has_run_path elf.dynamic ≡ false
  pub declared_is : declared_of (get_or "host_dependencies" (arr nil) config) ≡ ok declared
  pub libraries :
      All (λ s. (is_absolute s ≡ false) × (is_allowed declared s ≡ true)) (needed_of elf.dynamic)
  pub glibc : AllUpTo "GLIBC_" "GLIBC_2.28" elf.version_names
  pub glibcxx : AllUpTo "GLIBCXX_" "GLIBCXX_3.4.30" elf.version_names
  pub cxxabi : AllUpTo "CXXABI_" "CXXABI_1.3.13" elf.version_names

or_false : (a b : Bool) → (a || b) ≡ false → (a ≡ false) × (b ≡ false)
or_false true b h = cc
or_false false b h = (refl, h)

and_true : (a b : Bool) → (a && b) ≡ true → (a ≡ true) × (b ≡ true)
and_true true b h = (refl, h)
and_true false b h = cc

not-false : (a : Bool) → not a ≡ false → a ≡ true
not-false true h = refl
not-false false h = cc

checked_libraries :
    (declared names : List String)
    → has_absolute names ≡ false
    → all_allowed declared names ≡ true
    → All (λ s. (is_absolute s ≡ false) × (is_allowed declared s ≡ true)) names
checked_libraries declared [] a b = tt
checked_libraries declared (s ∷ names) a b =
    let (x, xs) = or_false (is_absolute s) (has_absolute names) a in
    let (y, ys) = and_true (is_allowed declared s) (all_allowed declared names) b in
    ((x, y), checked_libraries declared names xs ys)

machine_of-IsMachine :
    (arch : Value) (expected : Option String) (machine : String)
    → machine_of arch ≡ ok expected
    → differs expected machine ≡ false
    → IsMachine arch machine
machine_of-IsMachine arch expected machine h d = (
  λ e.
      let is_it : expected ≡ some "EM_X86_64" = ok_injective (sym h ∙ ap machine_of e) in
      (eq_iff machine "EM_X86_64").0
        (not-false (machine == "EM_X86_64") (subst (λ o. differs o machine ≡ false) is_it d)),
  λ e.
      let is_it : expected ≡ some "EM_AARCH64" = ok_injective (sym h ∙ ap machine_of e) in
      (eq_iff machine "EM_AARCH64").0
        (not-false (machine == "EM_AARCH64") (subst (λ o. differs o machine ≡ false) is_it d)),
)

get_value-eq-ok :
    (key : String) (v : Value) {r : Value}
    → get_value key v ≡ ok r
    → (fs : Fields) × (v ≡ obj fs) × (get_or_null key fs ≡ r)
get_value-eq-ok key (obj fs) h = (fs, refl, ok_injective h)
get_value-eq-ok key v h = absurd (cc)

get_dict-eq-ok :
    (key : String) (v : Value) {r : Value}
    → get_dict key v ≡ ok r
    → (fs : Fields) × (v ≡ obj fs) × (get_or key (obj end) fs ≡ r)
get_dict-eq-ok key (obj fs) h = (fs, refl, ok_injective h)
get_dict-eq-ok key v h = absurd (cc)

expected_machine-eq-ok :
    (config : Fields) (machine : String) {expected : Option String}
    → expected_machine config ≡ ok expected
    → differs expected machine ≡ false
    → HasMachine config machine
unfolding expected_machine
expected_machine-eq-ok config machine {expected} h d =
    on_ok (get_dict "buildspec" (obj config)) _ h λ spec e1 h1.
      on_ok (get_dict "target" spec) _ h1 λ target e2 h2.
        on_ok (get_value "arch" target) _ h2 λ arch e3 h3.
          let (fs, is_fs, found) = get_dict-eq-ok "target" spec e2 in
          let (gs, is_gs, arch_is) = get_value-eq-ok "arch" target e3 in
          record {
            spec = fs;
            target = gs;
            spec_is = ok_injective e1 ∙ is_fs;
            target_is = found ∙ is_gs;
            machine_is =
                machine_of-IsMachine (get_or_null "arch" gs) expected machine
                  (ap machine_of arch_is ∙ h3) d;
          }

check_maximum-UpTo :
    (names : List String) (prefix maximum message : String)
    → check_maximum (maximum_version names prefix) maximum message ≡ ok tt
    → AllUpTo prefix maximum names
check_maximum-UpTo names prefix maximum message h =
    maximum_version-IsUpTo names prefix maximum λ m e.
      raise_if-eq-ok (tuple_lt (version_tuple maximum) (version_tuple m)) _
        (subst (λ o. check_maximum o maximum message ≡ ok tt) e h)

readable-eq-ok : (o : Option Elf) {elf : Elf} → readable o ≡ ok elf → o ≡ some elf
readable-eq-ok none h = cc
readable-eq-ok (some e) h = ap some (ok_injective h)

check_libraries-eq-ok :
    (elf : Elf) (config : Fields)
    → check_libraries elf config ≡ ok tt
    → (declared : List String) × (declared_of (get_or "host_dependencies" (arr nil) config)
        ≡ ok declared)
      × All (λ s. (is_absolute s ≡ false) × (is_allowed declared s ≡ true)) (needed_of elf.dynamic)
unfolding check_libraries
check_libraries-eq-ok elf config h =
    on_ok (declared_of (get_or "host_dependencies" (arr nil) config)) _ h λ declared e h1.
      on_pass (has_absolute (needed_of elf.dynamic)) _ _ h1 λ relative h2.
        let allowed = raise_if-eq-ok (not (all_allowed declared (needed_of elf.dynamic))) _ h2 in
        (
          declared,
          e,
          checked_libraries declared (needed_of elf.dynamic) relative (not-false _ allowed),
        )

check_baseline-eq-ok :
    (elf : Elf)
    → check_baseline (required_versions elf) ≡ ok tt
    → AllUpTo "GLIBC_" "GLIBC_2.28" elf.version_names
      × AllUpTo "GLIBCXX_" "GLIBCXX_3.4.30" elf.version_names
      × AllUpTo "CXXABI_" "CXXABI_1.3.13" elf.version_names
unfolding check_baseline required_versions
check_baseline-eq-ok elf h =
    on_unit (check_maximum (maximum_version elf.version_names "GLIBC_") max_glibc _) _ h λ a h1.
      on_unit (check_maximum (maximum_version elf.version_names "GLIBCXX_") max_glibcxx _) _ h1
        λ b c. (
          check_maximum-UpTo elf.version_names "GLIBC_" max_glibc _ a,
          check_maximum-UpTo elf.version_names "GLIBCXX_" max_glibcxx _ b,
          check_maximum-UpTo elf.version_names "CXXABI_" max_cxxabi _ c,
        )

-- A kernel.so that passes validation with the baseline has the digest of its config, the machine of the
-- config's target where its architecture is x86_64 or aarch64, no RPATH or RUNPATH, and needs only
-- libraries of the base, declared ones, libtvm_ffi and the loader, none by an absolute path; every GLIBC,
-- GLIBCXX and CXXABI version that it needs is up to the ceiling of the baseline, component by component.
pub validate_kernel_so-IsPortable :
    (lib : Libraries) (read_elf : ReadElf) (payload : Bytes) (config : Fields)
    → validate_kernel_so lib read_elf payload config true ≡ ok tt
    → IsPortable lib read_elf payload config
unfolding validate_kernel_so
validate_kernel_so-IsPortable lib read_elf payload config h =
    on_pass (not (equals_text (digest_bytes lib payload) (get_or_null "kernel_so_digest" config))) _
      _ h
      λ digest h1. on_ok (readable (read_elf payload)) _ h1 λ elf read h2.
        on_ok (expected_machine config) _ h2 λ expected asks h3.
          on_pass (differs expected elf.machine) _ _ h3 λ agrees h4.
            on_pass (has_run_path elf.dynamic) _ _ h4 λ run_path h5.
              on_unit (check_libraries elf config) _ h5 λ libraries h6.
                on_unit (check_baseline (required_versions elf)) _ h6 λ baseline _.
                  let (declared, is_declared, allowed) =
                    check_libraries-eq-ok elf config libraries in
                  let (glibc, glibcxx, cxxabi) = check_baseline-eq-ok elf baseline in
                  record {
                    elf = elf;
                    declared = declared;
                    digest_is =
                        equals_text-eq (digest_bytes lib payload)
                          (get_or_null "kernel_so_digest" config) (not-false _ digest);
                    elf_is = readable-eq-ok (read_elf payload) read;
                    machine = expected_machine-eq-ok config elf.machine asks agrees;
                    no_run_path = run_path;
                    declared_is = is_declared;
                    libraries = allowed;
                    glibc = glibc;
                    glibcxx = glibcxx;
                    cxxabi = cxxabi;
                  }

-- What a config that passes `validate_build_config` says of its key and its release.
pub record IsBuildOf (lib : Libraries) (config : Fields) (key release : String) : Type 0 where
  pub spec : Fields
  pub spec_is : get_or_null "buildspec" config ≡ obj spec
  pub key_is : build_key lib (obj spec) ≡ ok key
  pub key_named : get_or_null "build_key" config ≡ str key
  pub release_is : get_or_null "release_digest" spec ≡ str release
  pub release_named : get_or_null "release_digest" config ≡ str release

spec_of-eq-ok : (lib : Libraries) (v : Value) {fs : Fields} → spec_of lib v ≡ ok fs → v ≡ obj fs
spec_of-eq-ok lib (obj fs) h = ap obj (ok_injective h)
spec_of-eq-ok lib null h = cc
spec_of-eq-ok lib (bool b) h = cc
spec_of-eq-ok lib (int n) h = cc
spec_of-eq-ok lib (float x) h = cc
spec_of-eq-ok lib (str s) h = cc
spec_of-eq-ok lib (arr vs) h = cc
spec_of-eq-ok lib other h = cc

both_true : (a b : Bool) → (not a || not b) ≡ false → (a ≡ true) × (b ≡ true)
both_true true true h = (refl, refl)
both_true true false h = cc
both_true false b h = cc

-- A build config that passes validation holds a BuildSpec whose BuildKey is the one that was asked for, and
-- names that key and the release in both places.
pub validate_build_config-IsBuildOf :
    (lib : Libraries) (config : Fields) (key release : String)
    → validate_build_config lib config key release ≡ ok tt
    → IsBuildOf lib config key release
unfolding validate_build_config
validate_build_config-IsBuildOf lib config key release h =
    on_ok (spec_of lib (get_or_null "buildspec" config)) _ h λ spec e h1.
      on_ok (build_key lib (obj spec)) _ h1 λ computed k h2.
        on_pass (not (computed == key) || not (equals_text key (get_or_null "build_key" config))) _
          _ h2
          λ keys h3.
            let (same, named) =
              both_true (computed == key) (equals_text key (get_or_null "build_key" config)) keys in
            let (inner, outer) =
              both_true (equals_text release (get_or_null "release_digest" spec))
                (equals_text release (get_or_null "release_digest" config))
                (raise_if-eq-ok _ _ h3) in
            record {
              spec = spec;
              spec_is = spec_of-eq-ok lib (get_or_null "buildspec" config) e;
              key_is = k ∙ ap ok ((eq_iff computed key).0 same);
              key_named = equals_text-eq key (get_or_null "build_key" config) named;
              release_is = equals_text-eq release (get_or_null "release_digest" spec) inner;
              release_named = equals_text-eq release (get_or_null "release_digest" config) outer;
            }
