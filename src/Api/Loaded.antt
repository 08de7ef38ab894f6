-- ===== src/Api/Loaded.antt =====
-- What a loaded module has passed, and what loading again does.
use k_dash.Base.{
  ◌≡◌, refl, ◌∙◌, ap, sym, subst, String, Option, none, some, List, ◌∷◌, eq_refl, ◌⊎◌, inl, inr,
  Option-cases, ok_injective, Result, ok, err,
}
use k_dash.Base.Exec.{Exec, ◌>>=◌}
use k_dash.Json.{Fields}
use k_dash.Cache.{Files, find_dir}
use k_dash.Validation.{validate_tvm_ffi_runtime}
use k_dash.Validation.Host.{Linker, Process}
use k_dash.Validation.Host.Packages.{validate_host_dependencies}
use k_dash.Validation.Host.Cxx.{validate_host_cxx_runtime}
use k_dash.Base.Exec.{on_lifted, continue}
use k_dash.Api.Load.{
  Loader, Program, find_module, end_load, load_in, end_process, on_process, imported, config_in,
  load_new, unless_loaded, load_path,
}

imported-eq : (o : Option String) {v : String} → imported o ≡ ok v → o ≡ some v
imported-eq none h = cc
imported-eq (some v) h = ap some (ok_injective h)

find_module_head :
    {M : Type 0} (key : String) (m : M) (rest : List (String × M))
    → find_module key ((key, m) ∷ rest) ≡ some m
find_module_head key m rest = rw (eq_refl key) refl

module _ {P M : Type 0} (loader : Loader P M) where
  load_in-eq :
      (directory : String) (p q : Process P) {m : M}
      → load_in loader directory p ≡ (ok m, q)
      → (loader.load_module directory p.inner).0 ≡ ok m
  load_in-eq directory p q {m} h = go (loader.load_module directory p.inner) h
    where
      go : (r : Result M × P) → end_load p r ≡ (ok m, q) → r.0 ≡ ok m
      go (result, x) h' = ap (λ (y : Result M × Process P). y.0) h'

module _ {W P M : Type 0} (files : Files) (linker : Linker P) (loader : Loader P M) where
  -- The checks that a module has passed before it was loaded
  pub record Loaded (directory : String) (m : M) (s t : Program W P M) : Type 0 where
    pub version : String
    pub config : Fields
    pub required : Process P
    pub checked : Process P
    pub version_is : loader.version ≡ some version
    pub config_is : config_in files (find_dir directory s.inner.cache.builds) ≡ ok config
    pub tvm_ffi : validate_tvm_ffi_runtime config version ≡ ok tt
    pub dependencies : validate_host_dependencies linker config s.process ≡ (ok tt, required)
    pub cxx_runtime : validate_host_cxx_runtime linker config required ≡ (ok tt, checked)
    pub module_is : (loader.load_module directory checked.inner).0 ≡ ok m
    pub kept : t.modules ≡ (directory, m) ∷ s.modules

  on_called {ℓ κ μ} :
      {A : Type ℓ} {B : Type κ} {R : Type μ} (call : Exec (Process P) A)
      (f : A → Exec (Program W P M) B) (s : Program W P M) {b : B} {end : Program W P M}
      → (on_process call >>= f) s ≡ (ok b, end)
      → ((a : A) (p : Process P)
          → call s.process ≡ (ok a, p)
          → f a (record s { process = p }) ≡ (ok b, end)
          → R)
      → R
  on_called {A = A} {R = R} call f s {b} {end} h k = go (call s.process) refl h
    where
      go :
          (r : Result A × Process P)
          → call s.process ≡ r
          → continue f (end_process s r) ≡ (ok b, end)
          → R
      go (ok a, p) e h' = k a p e h'
      go (err x, p) e h' = cc

  load_new-Loaded :
      (directory : String) (m : M) (s t : Program W P M)
      → load_new files linker loader directory s ≡ (ok m, t)
      → Loaded directory m s t
  unfolding load_new
  load_new-Loaded directory m s t h = on_lifted (imported loader.version) _ s h λ version e1 h1.
      on_lifted (config_in files (find_dir directory s.inner.cache.builds)) _ s h1 λ config e2 h2.
        on_lifted (validate_tvm_ffi_runtime config version) _ s h2 λ u e3 h3.
          on_called (validate_host_dependencies linker config) _ s h3 λ v p1 e4 h4.
            on_called (validate_host_cxx_runtime linker config) _ (record s { process = p1 }) h4
              λ w p2 e5 h5.
                on_called (load_in loader directory) _ (record s { process = p2 }) h5
                  λ m' p3 e6 h6.
                    let same : m' ≡ m =
                      ok_injective (ap (λ (x : Result M × Program W P M). x.0) h6) in
                    record {
                      version = version;
                      config = config;
                      required = p1;
                      checked = p2;
                      version_is = imported-eq loader.version e1;
                      config_is = e2;
                      tvm_ffi = e3;
                      dependencies = e4;
                      cxx_runtime = e5;
                      module_is = load_in-eq loader directory p2 p3 e6 ∙ ap ok same;
                      kept =
                          sym (ap (λ (x : Result M × Program W P M). x.1.modules) h6)
                          ∙ ap (λ x. (directory, x) ∷ s.modules) same;
                    }

  -- A module that `load` returns for a path was there for this path before, and nothing has changed, or it
  -- was loaded now, once, after the versions of TVM-FFI, the host dependencies and the C++ runtime in the
  -- build's config passed their checks, in this order; and the next `load` of the path returns the same
  -- module, with no check and no call of the dynamic linker.
  pub load_path-Loaded :
      (directory : String) (m : M) (s t : Program W P M)
      → load_path files linker loader directory s ≡ (ok m, t)
      → (((t ≡ s) × (find_module directory s.modules ≡ some m)) ⊎ Loaded directory m s t)
        × (load_path files linker loader directory t ≡ (ok m, t))
  unfolding load_path load_new
  load_path-Loaded directory m s t h = elim (Option-cases (find_module directory s.modules)) [
    | inr (there, e) ↦
        let h' : ◌≡◌ {A = Result M × Program W P M} (ok there, s) (ok m, t) =
          subst (λ o. unless_loaded files linker loader directory o s ≡ (ok m, t)) e h in
        let same : s ≡ t = ap (λ (x : Result M × Program W P M). x.1) h' in
        let found : find_module directory s.modules ≡ some m =
          e ∙ ap some (ok_injective (ap (λ (x : Result M × Program W P M). x.0) h')) in
        (
          inl (sym same, found),
          subst
              (λ x.
                unless_loaded files linker loader directory (find_module directory x.modules) x
                ≡ (ok m, t))
              same h,
        )
    | inl e ↦
        let h' : load_new files linker loader directory s ≡ (ok m, t) =
          subst (λ o. unless_loaded files linker loader directory o s ≡ (ok m, t)) e h in
        let loaded = load_new-Loaded directory m s t h' in
        (
          inr loaded,
          subst (λ o. unless_loaded files linker loader directory o t ≡ (ok m, t))
              (sym
                (ap (find_module directory) loaded.kept ∙ find_module_head directory m s.modules))
              refl,
        )
  ]
