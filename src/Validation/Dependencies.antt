-- ===== src/Validation/Dependencies.antt =====
-- `infer_host_dependencies` of validation.py: what a kernel.so is recorded to need of its host.
use Prim.Native.String
use text.Mathlib.Text.{is_le}
use k_dash.Base.{
  String, Bool, true, false, Option, none, some, List, [], ◌∷◌, ◌==◌, if◌then◌else◌, ◌>>◌, map,
}
use k_dash.Json.{Value, str, obj, Items, nil, cons, fields}
use k_dash.Validation.{Elf, needed_of}

-- CUDA_SONAMES
abbrev pub cuda_sonames : List (String × String)
cuda_sonames =
    ("libcuda.so.1", "cuda-driver")
    ∷ ("libcudart.so.12", "cuda-runtime")
    ∷ ("libcudart.so.13", "cuda-runtime")
    ∷ ("libcublas.so.12", "cublas")
    ∷ ("libcublas.so.13", "cublas")
    ∷ ("libcublasLt.so.12", "cublas")
    ∷ ("libcublasLt.so.13", "cublas")
    ∷ ("libnccl.so.2", "nccl")
    ∷ ("libcute_dsl_runtime.so", "cutedsl-runtime")
    ∷ []

-- DEPENDENCY_MIN_VERSIONS, with "0" for a name that has none
abbrev pub min_version_of : (name : String) → String
min_version_of name = if name == "cutedsl-runtime" then "4.6.1" else "0"

unfoldable pub package_of : List (String × String) → (soname : String) → Option String
package_of [] soname = none
package_of ((s, name) ∷ rest) soname = if s == soname then some name else package_of rest soname

-- A set of texts, in the order of its texts
unfoldable pub insert_text : String → List String → List String
insert_text s [] = s ∷ []
insert_text s (t ∷ ts) =
    if s == t
    then t ∷ ts
    else if is_le (String.compare s t)
    then s ∷ t ∷ ts
    else t ∷ insert_text s ts

-- `sorted(dynamic_dependencies(payload))`, of the texts of a set
unfoldable pub sorted_set : List String → List String
unfolding insert_text
sorted_set [] = []
sorted_set (s ∷ ts) = insert_text s (sorted_set ts)

abbrev pub dependency : (soname name : String) → Value
dependency soname name = obj (
    fields (
      ("name", str name)
      ∷ ("soname", str soname)
      ∷ ("min_version", str (min_version_of name))
      ∷ []))

abbrev pub add_dependency : (soname : String) → Option String → Items → Items
add_dependency soname none rest = rest
add_dependency soname (some name) rest = cons (dependency soname name) rest

-- The entries for the names that are CUDA's
unfoldable pub dependencies : List String → Items
unfolding package_of
dependencies [] = nil
dependencies (s ∷ ts) = add_dependency s (package_of cuda_sonames s) (dependencies ts)

unfoldable pub infer_host_dependencies : Elf → Items
unfolding dependencies sorted_set
infer_host_dependencies elf = dependencies (sorted_set (needed_of elf.dynamic))

-- The names of CUDA_SONAMES
abbrev pub cuda_names : List String
cuda_names = map (λ (p : String × String). p.0) cuda_sonames

-- The names among them that CUDA_SONAMES has
is_cuda : Option String → Bool
is_cuda none = false
is_cuda (some name) = true
