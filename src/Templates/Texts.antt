-- ===== src/Templates/Texts.antt =====
-- The texts that templates.py writes into a new project.
use k_dash.Base.{String, [], ◌∷◌}
use k_dash.Base.{false}
use k_dash.Json.{Value, bool, int, str, arr, obj, fields, nil, cons}
use k_dash.Json.Numbers.{pos}
use k_dash.Builder.Driver.{unlines}

-- CPP_SOURCE
unfoldable pub cpp_source : String
cpp_source = unlines (
    "#include <tvm/ffi/tvm_ffi.h>" ∷ "" ∷ "using namespace tvm;" ∷ ""
    ∷ "__global__ void kernel(float* out, const float* x, int64_t n) {"
    ∷ "  for (int64_t i = blockIdx.x * blockDim.x + threadIdx.x; i < n; i += blockDim.x * gridDim.x)"
    ∷ "    out[i] = x[i];" ∷ "}" ∷ "" ∷ "void copy_cuda(ffi::TensorView out, ffi::TensorView x) {"
    ∷ "  TVM_FFI_CHECK(out.numel() == x.numel(), ValueError) << \"size mismatch\";"
    ∷ "  kernel<<<(x.numel() + 255) / 256, 256>>>(static_cast<float*>(out.data_ptr()),"
    ∷ "                                           static_cast<const float*>(x.data_ptr()), x.numel());"
    ∷ "}" ∷ "TVM_FFI_DLL_EXPORT_TYPED_FUNC(copy_cuda, copy_cuda);" ∷ [])

-- CUTEDSL_SOURCE
unfoldable pub cutedsl_source : String
cutedsl_source = unlines (
    "from __future__ import annotations" ∷ "" ∷ "import sys" ∷ "" ∷ "import cutlass"
    ∷ "import cutlass.cute as cute" ∷ "from cutlass.cute.runtime import make_fake_compact_tensor"
    ∷ "" ∷ "" ∷ "@cute.kernel" ∷ "def copy_kernel(x: cute.Tensor, out: cute.Tensor):"
    ∷ "    for index in range(x.shape[0]):" ∷ "        out[index] = x[index]" ∷ "" ∷ ""
    ∷ "@cute.jit" ∷ "def copy_cuda(x: cute.Tensor, out: cute.Tensor):"
    ∷ "    copy_kernel(x, out).launch(grid=(1, 1, 1), block=(1, 1, 1))" ∷ "" ∷ ""
    ∷ "def main() -> None:"
    ∷ "    object_path, arch, elements = sys.argv[1], sys.argv[2], int(sys.argv[3])"
    ∷ "    x = make_fake_compact_tensor(cutlass.Float32, (elements,))"
    ∷ "    out = make_fake_compact_tensor(cutlass.Float32, (elements,))"
    ∷ "    compiled = cute.compile(" ∷ "        copy_cuda," ∷ "        x," ∷ "        out,"
    ∷ "        options=f\"--enable-tvm-ffi --gpu-arch={arch}\"," ∷ "    )"
    ∷ "    compiled.export_to_c(object_path, function_name=\"copy_cuda\")" ∷ "" ∷ ""
    ∷ "if __name__ == \"__main__\":" ∷ "    main()" ∷ [])

-- The schema of the arguments
abbrev pub args_schema : Value
args_schema = obj (
    fields (
      ("$schema", str "https://json-schema.org/draft/2020-12/schema")
      ∷ ("type", str "object")
      ∷ (
        "properties",
        obj (
            fields (
              (
                "block_size",
                obj (
                    fields (
                      ("type", str "integer")
                      ∷ (
                        "enum",
                        arr (
                            cons (int (pos 128)) (cons (int (pos 256)) (cons (int (pos 512)) nil))),
                      )
                      ∷ ("default", int (pos 256))
                      ∷ [])),
              )
              ∷ [])),
      )
      ∷ ("additionalProperties", bool false)
      ∷ []))

unfoldable pub flake_text : String
flake_text = unlines (
    "{" ∷ "  description = \"k-dash kernel build lock\";" ∷ "  inputs.nixpkgs = {"
    ∷ "    url = \"tarball+https://codeload.github.com/NixOS/nixpkgs/tar.gz/75f4ba05c63be3f147bcc2f7bd4ba1f029cedcb1\";"
    ∷ "    flake = false;" ∷ "  };" ∷ "  inputs.cuda-nixpkgs = {"
    ∷ "    url = \"tarball+https://codeload.github.com/NixOS/nixpkgs/tar.gz/b6018f87da91d19d0ab4cf979885689b469cdd41\";"
    ∷ "    flake = false;" ∷ "  };" ∷ "  outputs = { self, nixpkgs, cuda-nixpkgs }: {};" ∷ "}" ∷ [])
