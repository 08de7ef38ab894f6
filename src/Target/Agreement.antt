-- ===== src/Target/Agreement.antt =====
-- The target that is detected at load time is the one that an explicit build on the same machine
-- names, so the two compute one BuildKey.
use k_dash.Base.{
  ◌<◌, ◌≡◌, refl, ap, ◌∙◌, subst, String, false, not, Option, none, some, ◌==◌, eq_iff,
  Option-cases, inl, inr, Bool-cases, ok, arith, >>=-eq-ok, on_ok, on_pass, Error,
}
use k_dash.Model.{TargetSpec, default_libc}
use k_dash.Target.{
  normalize_cuda_version, Torch, Host, explicit_machine, explicit_arch, runtime_arch,
  explicit_target, required, search_release, nvcc_version, normalize_some, or_torch, detected_cc,
  detect_target,
}
use k_dash.Target.Laws.{normalize_cuda_version_idem, normalize_cc-detected_cc}

required-eq-ok {ℓ} :
    {A : Type ℓ} (o : Option A) (e : Error) {a : A} → required o e ≡ ok a → o ≡ some a
required-eq-ok none e h = cc
required-eq-ok (some a) e h = cc

abbrev IsNormal : Option String → Type 0
IsNormal none = Unit
IsNormal (some c) = normalize_cuda_version c ≡ ok c

normalize_some-IsNormal :
    (o : Option String) {r : Option String} → normalize_some o ≡ ok r → IsNormal r
normalize_some-IsNormal none {r} h = let e : none ≡ r = cc in subst IsNormal e tt
normalize_some-IsNormal (some g) {r} h =
    let (v, p, q) = >>=-eq-ok (normalize_cuda_version g) _ h in
    let e : some v ≡ r = cc in subst IsNormal e (normalize_cuda_version_idem g p)

nvcc_version-IsNormal : (h : Host) {r : Option String} → nvcc_version h ≡ ok r → IsNormal r
unfolding nvcc_version
nvcc_version-IsNormal h {r} e = elim (Option-cases h.nvcc) [
  | inl p ↦ let q : none ≡ r = ground arith in subst IsNormal q tt
  | inr (out, p) ↦
      let q : normalize_some (search_release out) ≡ ok r = ground arith in
      normalize_some-IsNormal (search_release out) q
]

or_torch-IsNormal :
    (found : Option String) (t : Torch) {r : Option String}
    → IsNormal found
    → or_torch found t ≡ ok r
    → IsNormal r
or_torch-IsNormal (some c) t {r} n e = let q : some c ≡ r = cc in subst IsNormal q n
or_torch-IsNormal none t {r} n e = elim (Option-cases t.cuda) [
  | inl p ↦ let q : none ≡ r = ground arith in subst IsNormal q tt
  | inr (v, p) ↦ elim (Bool-cases (v == "")) [
    | inl b ↦ let q : none ≡ r = ground arith in subst IsNormal q tt
    | inr b ↦
        let q : normalize_some (some v) ≡ ok r = ground arith in normalize_some-IsNormal (some v) q
  ]
]

explicit_machine_on_linux :
    (h : Host) → h.system ≡ "Linux" → explicit_machine (record h { target_arch = none }) ≡ h.machine
explicit_machine_on_linux h s =
    let differ : (h.system == "Darwin") ≡ false = ap (λ (t : String). t == "Darwin") s in rw differ

explicit_arch-runtime_arch :
    (m : String) {a : String} → runtime_arch m ≡ some a → explicit_arch m ≡ some a
explicit_arch-runtime_arch m r = ground arith

-- Where `detect_target` finds a target on a machine whose GPU reports a one-digit minor capability,
-- `explicit_target` of its CUDA version, capability and TVM-FFI version, without an architecture
-- override on that machine, is the same target.
pub explicit_target-detect_target :
    (h : Host) {t : TargetSpec}
    → ((torch : Torch) → h.torch ≡ some torch → torch.capability.1 < 10)
    → detect_target h ≡ ok t
    → explicit_target (record h { target_arch = none }) t.cuda t.cc t.tvm_ffi ≡ ok t
unfolding explicit_target detect_target
explicit_target-detect_target h {t} small d = on_ok (nvcc_version h) _ d λ nvcc p0 d0.
    on_ok (required h.torch _) _ d0 λ torch p1 d1. on_ok (or_torch nvcc torch) _ d1 λ found p2 d2.
      on_pass (not torch.is_available) _ _ d2 λ p3 d3. on_ok (required found _) _ d3 λ cuda p4 d4.
        on_ok (required (runtime_arch h.machine) _) _ d4 λ arch p5 d5.
          on_pass (not (h.system == "Linux")) _ _ d5 λ p6 d6.
            on_ok (required h.tvm_ffi _) _ d6 λ ffi p7 d7.
              let on_linux : h.system ≡ "Linux" = (eq_iff h.system "Linux").0 (ground arith) in
              let known : explicit_arch (explicit_machine (record h { target_arch = none }))
                  ≡ some arch =
                ap explicit_arch (explicit_machine_on_linux h on_linux)
                ∙ explicit_arch-runtime_arch h.machine (required-eq-ok _ _ p5) in
              let normal : normalize_cuda_version cuda ≡ ok cuda =
                subst IsNormal (required-eq-ok found _ p4)
                  (or_torch-IsNormal nvcc torch (nvcc_version-IsNormal h p0) p2) in
              let e : record {
                os = "linux";
                arch = arch;
                cuda = cuda;
                cc = detected_cc torch.capability;
                libc = default_libc;
                tvm_ffi = ffi;
              }
                  ≡ t =
                cc in
              subst
                (λ x.
                  explicit_target (record h { target_arch = none }) x.cuda x.cc x.tvm_ffi ≡ ok x)
                e
                (rw
                  (
                    known,
                    normal,
                    normalize_cc-detected_cc torch.capability.0 torch.capability.1
                        (small torch (required-eq-ok _ _ p1)),
                  )
                  refl)
