-- ===== src/Tests/Starting.antt =====
-- A module that is loaded from a cached build.
use k_dash.Base.{
  ℕ, suc, ◌≡◌, refl, ap, ap₂, String, Char, code, ◌<>◌, Bool, true, false, not, Option, none, some,
  List, [], ◌∷◌, ◌==◌, nat_eq, if◌then◌else◌, if-eq-ok, ok, err, Result, Bool-cases, inl, inr,
  arith, ◌∙◌, sym, ◌⊎◌, Option-cases,
}
use k_dash.Base.Text.{strip_prefix}
use k_dash.Json.{Value, null, int, str, arr, obj, end, Fields, field, fields, items}
use k_dash.Project.Names.{}
use k_dash.Cache.{Cache, Files, empty_cache}
use k_dash.Validation.Host.{Linker, Process}
use k_dash.Api.Load.{Loader, Program, load_path}
use k_dash.Api.Loaded.{Loaded, load_path-Loaded}
use k_dash.Api.Load.{find_module}

-- A process with its libraries loaded, which counts the modules.
abbrev pub linker : Linker ℕ
linker = record {
  open_library = λ name n. (true, n);
  maps = λ n. some (
      "7f00-7f10 r-xp 0 08:01 11 /usr/lib/libstdc++.so.6"
      ∷ "7f20-7f30 r-xp 0 08:01 12 /usr/lib/libgcc_s.so.1" ∷ []);
  is_file = λ path n. true;
  version_definitions = λ path n. ok ("GLIBCXX_3.4.30" ∷ "CXXABI_1.3.9" ∷ []);
  package_version = λ name n. none;
  runtime_libraries = λ n. none;
}

abbrev pub loader : Loader ℕ ℕ
loader = record { version = some "0.1"; load_module = λ path n. (ok n, suc n) }

abbrev build_config : Fields
build_config = fields (
    ("buildspec", obj (field "target" (obj (field "tvm_ffi" (str "0.1") end)) end))
    ∷ ("host_dependencies", arr (items (obj (field "soname" (str "libcudart.so.12") end) ∷ [])))
    ∷ (
      "cxx_runtime",
      obj (
          fields (
            ("soname", str "libstdc++.so.6")
            ∷ ("unwind_soname", str "libgcc_s.so.1")
            ∷ ("required_glibcxx", str "GLIBCXX_3.4")
            ∷ ("required_cxxabi", null)
            ∷ [])),
    )
    ∷ [])

abbrev build_files : Files
build_files = record { read_json = λ bytes. ok (obj build_config); reports_exists = true }

abbrev cached : Cache
cached = record empty_cache {
  builds = ("key", record { config = some (1 ∷ []); kernel_so = some (2 ∷ []) }) ∷ [];
}

abbrev before : Program ℕ ℕ ℕ
before = record {
  inner = record { cache = cached; world = 0 };
  process = record { handles = []; inner = 5 };
  modules = [];
}

abbrev after : Program ℕ ℕ ℕ
after = record before {
  process = record { handles = "libcudart.so.12" ∷ []; inner = 6 };
  modules = ("key", 5) ∷ [];
}

loaded_now : load_path build_files linker loader "key" before ≡ (ok 5, after)
unfolding load_path k_dash.Validation.validate_tvm_ffi_runtime k_dash.Json.get_field
    k_dash.Validation.Host.Packages.validate_host_dependencies
    k_dash.Validation.Host.Cxx.validate_host_cxx_runtime strip_prefix
    k_dash.Validation.Versions.maximum_version k_dash.Base.Decimal.take_digits
    k_dash.Validation.Versions.tuple_lt k_dash.Base.Decimal.number_from
loaded_now = refl

load_path-Loaded_example :
    (((after ≡ before) × (find_module "key" before.modules ≡ some 5))
      ⊎ Loaded build_files linker loader "key" 5 before after)
    × (load_path build_files linker loader "key" after ≡ (ok 5, after))
load_path-Loaded_example =
    load_path-Loaded build_files linker loader "key" 5 before after loaded_now
