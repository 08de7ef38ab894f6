-- ===== src/Target.antt =====
-- target.py: the explicit and the detected TargetSpec. What the process can see of its machine is a
-- `Host`: an environment variable, `platform`, the output of nvcc, PyTorch and one package version.
pub mod Laws
pub mod Agreement
use Prim.Native.String
use k_dash.Base.{
  ℕ, suc, ◌+◌, ◌≡◌, String, ◌<>◌, code, Char, Bool, true, false, not, ◌&&◌, ◌||◌, Option, none,
  some, List, [], ◌∷◌, ◌==◌, nat_eq, leb, ltb, if◌then◌else◌, Result, ok, err, raise, raise_if,
  ◌>>=◌, ◌>>◌, contract, target_detection, Error, k_dash_error,
}
use k_dash.Base.Text.{strip, strip_left, strip_prefix, is_space}
use k_dash.Base.Decimal.{take_digits, number, digits_text, show}
use k_dash.Model.{TargetSpec, default_libc}

-- The digits at the front, at least one, and the rest.
abbrev pub some_digits : List ℕ × String → Option (List ℕ × String)
some_digits ([], rest) = none
some_digits (d ∷ ds, rest) = some (d ∷ ds, rest)

-- `\d+`
abbrev pub match_digits : String → Option (List ℕ × String)
match_digits s = some_digits (take_digits s)

-- The rest after a dot.
abbrev pub match_dot : String → Option String
match_dot String.[] = none
match_dot (String.◌∷◌ c s) = if nat_eq (code c) b'.' then some s else none

infixl 5 ◌>>?◌
abbrev pub ◌>>?◌ {ℓ κ} : {A : Type ℓ} {B : Type κ} → Option A → (A → Option B) → Option B
none >>? f = none
some a >>? f = f a

-- `(\d+)\.(\d+)`, and the rest
abbrev pub match_version : String → Option (List ℕ × List ℕ × String)
match_version s = match_digits s >>? λ (major, after_major). match_dot after_major >>? λ after_dot.
    match_digits after_dot >>? λ (minor, rest). some (major, minor, rest)

-- `(?:\.\d+)?` and the end of the text
abbrev pub is_patch : String → Bool
is_patch String.[] = true
is_patch (String.◌∷◌ c s) = elim (match_dot (String.◌∷◌ c s) >>? match_digits) [
  | some (ds, String.[]) ↦ true
  | some (ds, String.◌∷◌ d r) ↦ false
  | none ↦ false
]

abbrev pub cuda_text : ℕ → ℕ → String
cuda_text major minor = show major <> ("." <> show minor)

abbrev pub cuda_of : Option (List ℕ × List ℕ × String) → Result String
cuda_of none = raise contract "CUDA version must be major.minor" "target"
cuda_of (some (major, minor, rest)) =
    if is_patch rest
    then ok (cuda_text (number major) (number minor))
    else raise contract "CUDA version must be major.minor" "target"

unfoldable pub normalize_cuda_version : String → Result String
normalize_cuda_version value = cuda_of (match_version (strip is_space value))

-- `(\d+)(\d)`: the digits before the last, at least one, and the last.
abbrev pub split_last : List ℕ → Option (List ℕ × ℕ)
split_last [] = none
split_last (d ∷ []) = none
split_last (d ∷ e ∷ []) = some (d ∷ [], e)
split_last (d ∷ e ∷ f ∷ ds) = split_last (e ∷ f ∷ ds) >>? λ (init, last). some (d ∷ init, last)

-- `[a-z]?` and the end of the text
abbrev pub match_suffix : String → Option String
match_suffix String.[] = some ""
match_suffix (String.◌∷◌ c String.[]) =
    if leb b'a' (code c) && leb (code c) b'z' then some (String.◌∷◌ c String.[]) else none
match_suffix _ = none

-- `sm_(\d+)(\d)([a-z]?)`
abbrev pub match_cc : String → Option (List ℕ × ℕ × String)
match_cc value = strip_prefix "sm_" value >>? λ digits. match_digits digits >>? λ (ds, rest).
    split_last ds >>? λ (major, minor). match_suffix rest >>? λ suffix. some (major, minor, suffix)

abbrev pub cc_text : ℕ → ℕ → String → String
cc_text major minor suffix = "sm_" <> (show major <> (show minor <> suffix))

abbrev pub cc_of : Option (List ℕ × ℕ × String) → Result String
cc_of none = raise contract "CC must look like sm_90a" "target"
cc_of (some (ds, minor, suffix)) =
    let major = number ds in
    if leb 9 major && not (suffix == "a")
    then raise contract "CC 9.0 and newer require architecture-specific a target" "target"
    else if ltb major 9 && not (suffix == "")
    then raise contract "pre-9.0 CC must not use an architecture suffix" "target"
    else ok (cc_text major minor suffix)

unfoldable pub normalize_cc : String → Result String
normalize_cc value = cc_of (match_cc value)

-- `torch`, where it can be imported: its CUDA version, and what it says of logical GPU 0.
pub record Torch : Type 0 where
  pub cuda : Option String
  pub is_available : Bool
  pub capability : ℕ × ℕ

pub record Host : Type 0 where
  -- K_DASH_TARGET_ARCH
  pub target_arch : Option String
  -- platform.system() and platform.machine()
  pub system : String
  pub machine : String
  -- the output of `nvcc --version`, if it ran and succeeded
  pub nvcc : Option String
  pub torch : Option Torch
  -- the version of the installed package apache-tvm-ffi
  pub tvm_ffi : Option String

abbrev pub explicit_machine : Host → String
explicit_machine h = elim h.target_arch [
  | some m ↦ m
  | none ↦ if h.system == "Darwin" then "x86_64" else h.machine
]

-- The architectures that `explicit_target` and `detect_target` know.
abbrev pub explicit_arch : String → Option String
explicit_arch m =
    if m == "x86_64"
    then some "x86_64"
    else if m == "aarch64"
    then some "aarch64"
    else if m == "arm64"
    then some "aarch64"
    else none

abbrev pub runtime_arch : String → Option String
runtime_arch m =
    if m == "x86_64" then some "x86_64" else if m == "aarch64" then some "aarch64" else none

abbrev pub required {ℓ} : {A : Type ℓ} → Option A → Error → Result A
required none e = err e
required (some a) e = ok a

unfoldable pub explicit_target : Host → (cuda cc tvm_ffi : String) → Result TargetSpec
unfolding normalize_cuda_version normalize_cc
explicit_target h cuda cc tvm_ffi = do
  arch ←
      required (explicit_arch (explicit_machine h))
        (k_dash_error contract "unsupported CPU architecture" "target")
  cuda' ← normalize_cuda_version cuda
  cc' ← normalize_cc cc
  ok (record {
    os = "linux";
    arch = arch;
    cuda = cuda';
    cc = cc';
    libc = default_libc;
    tvm_ffi = tvm_ffi;
  })

-- One place of the search for `release\s+(\d+\.\d+)`, with its group
abbrev release_at : String → Option String
release_at s = strip_prefix "release" s >>? λ spaced. elim (strip_left is_space spaced == spaced) [
  | true ↦ none
  | false ↦ match_version (strip_left is_space spaced) >>? λ (major, minor, _).
      some (digits_text major <> ("." <> digits_text minor))
]

unfoldable pub search_release : String → Option String
search_release String.[] = none
search_release (String.◌∷◌ c s) =
    let later = search_release s in
    elim (release_at (String.◌∷◌ c s)) [ none ↦ later | some group ↦ some group ]

abbrev pub normalize_some : Option String → Result (Option String)
normalize_some none = ok none
normalize_some (some group) = normalize_cuda_version group >>= λ v. ok (some v)

-- `_nvcc_version`
unfoldable pub nvcc_version : Host → Result (Option String)
unfolding search_release normalize_cuda_version
nvcc_version h = elim h.nvcc [ none ↦ ok none | some out ↦ normalize_some (search_release out) ]

-- `if cuda is None and torch_cuda`
abbrev pub or_torch : Option String → Torch → Result (Option String)
or_torch (some cuda) t = ok (some cuda)
or_torch none t = elim t.cuda [
  | none ↦ ok none
  | some v ↦ if v == "" then ok none else normalize_some (some v)
]

abbrev detection_error : String → Error
detection_error message = k_dash_error target_detection message "target-detection"

abbrev pub detected_cc : ℕ × ℕ → String
detected_cc (major, minor) = cc_text major minor (if leb 9 major then "a" else "")

abbrev unsupported : Error
unsupported = detection_error "runtime loading supports Linux x86_64/aarch64 only"

unfoldable pub detect_target : Host → Result TargetSpec
unfolding nvcc_version
detect_target h = do
  nvcc ← nvcc_version h
  torch ← required h.torch (detection_error "PyTorch is required to inspect logical GPU 0")
  found ← or_torch nvcc torch
  raise_if (not torch.is_available) (detection_error "logical GPU 0 is not available")
  cuda ← required found (detection_error "neither nvcc nor PyTorch reports a CUDA toolkit")
  arch ← required (runtime_arch h.machine) unsupported
  raise_if (not (h.system == "Linux")) unsupported
  tvm_ffi ← required h.tvm_ffi (detection_error "apache-tvm-ffi is required")
  ok (record {
    os = "linux";
    arch = arch;
    cuda = cuda;
    cc = detected_cc torch.capability;
    libc = default_libc;
    tvm_ffi = tvm_ffi;
  })
