-- ===== src/Project/Names.antt =====
-- `validate_kernel_name`: KERNEL_RE as the automaton of its expression.
use k_dash.Base.{
  String, Char, code, Bool, true, false, ◌&&◌, ◌||◌, leb, nat_eq, if◌then◌else◌, Result, ok, raise,
  contract,
}
use k_dash.Json.{Value, str}

-- Before a part, inside a word, and behind one of `.`, `_` and `-`; first of the owner, then of the kernel.
pub data KernelState : Type 0 where
  owner_start : KernelState
  owner_word : KernelState
  owner_mark : KernelState
  kernel_start : KernelState
  kernel_word : KernelState
  kernel_mark : KernelState
  failed : KernelState

-- `[a-z0-9]`
abbrev pub is_word : Char → Bool
is_word c = leb b'a' (code c) && leb (code c) b'z' || leb b'0' (code c) && leb (code c) b'9'

-- `[._-]`
abbrev pub is_mark : Char → Bool
is_mark c = nat_eq (code c) b'.' || nat_eq (code c) b'_' || nat_eq (code c) b'-'

abbrev pub kernel_step : KernelState → Char → KernelState
kernel_step owner_start c = if is_word c then owner_word else failed
kernel_step owner_mark c = if is_word c then owner_word else failed
kernel_step owner_word c =
    if is_word c
    then owner_word
    else if is_mark c
    then owner_mark
    else if nat_eq (code c) b'/'
    then kernel_start
    else failed
kernel_step kernel_start c = if is_word c then kernel_word else failed
kernel_step kernel_mark c = if is_word c then kernel_word else failed
kernel_step kernel_word c =
    if is_word c then kernel_word else if is_mark c then kernel_mark else failed
kernel_step failed c = failed

unfoldable pub kernel_run : KernelState → String → KernelState
kernel_run q String.[] = q
kernel_run q (String.◌∷◌ c s) = kernel_run (kernel_step q c) s

abbrev pub is_accepting : KernelState → Bool
is_accepting kernel_word = true
is_accepting _ = false

unfoldable pub validate_kernel_name : Value → Result String
unfolding kernel_run
validate_kernel_name (str name) =
    if is_accepting (kernel_run owner_start name)
    then ok name
    else raise contract "kernel must be a lowercase owner/kernel path" "project"
validate_kernel_name _ = raise contract "kernel must be a lowercase owner/kernel path" "project"
