-- ===== src/Base/Errors.antt =====
-- errors.py: the exception classes, and a computation that may raise as a value of `Result`.
-- An exception carries its message and its stage; the `context` mapping only feeds the message text.
use Prim.Native.String.{String}
use mathlib.Core.Path.{◌≡◌, refl}
use mathlib.Core.Logic.{◌⊎◌, inl, inr}
use mathlib.Core.Bool.{Bool, true, false}
use k_dash.Base.Tests.{if◌then◌else◌}

-- The classes of errors.py; `operational` is a `KDashError` of no subclass.
pub data ErrorClass : Type 0 where
  operational : ErrorClass
  contract : ErrorClass
  registry_config_not_found : ErrorClass
  registry_access_failure : ErrorClass
  artifact_not_found : ErrorClass
  artifact_integrity : ErrorClass
  offline_cache_miss : ErrorClass
  target_detection : ErrorClass

-- What the interpreter itself raises.
pub data PythonError : Type 0 where
  type_error : PythonError
  key_error : PythonError
  attribute_error : PythonError
  index_error : PythonError
  name_error : PythonError
  value_error : PythonError
  tar_error : PythonError
  stop_iteration : PythonError
  os_error : PythonError
  assertion_error : PythonError
  import_error : PythonError

pub data Error : Type 0 where
  k_dash_error : ErrorClass → (message stage : String) → Error
  python_error : PythonError → Error

pub data Result {ℓ} (A : Type ℓ) : Type ℓ where
  ok : A → Result A
  err : Error → Result A

abbrev pub raise {ℓ} : {A : Type ℓ} → ErrorClass → (message stage : String) → Result A
raise c message stage = err (k_dash_error c message stage)

abbrev pub raise_python {ℓ} : {A : Type ℓ} → PythonError → Result A
raise_python e = err (python_error e)

infixl 5 ◌>>=◌ ◌>>◌
abbrev pub ◌>>=◌ {ℓ κ} :
    {A : Type ℓ} {B : Type κ} → (first : Result A) → (next : A → Result B) → Result B
ok value >>= next = next value
err raised >>= next = err raised

abbrev pub ◌>>◌ {ℓ} : {B : Type ℓ} → Result (Unit {0}) → Result B → Result B
m >> k = m >>= λ _. k

-- `if test: raise …`
abbrev pub raise_if : Bool → Error → Result (Unit {0})
raise_if true e = err e
raise_if false e = ok tt

pub >>=-eq-ok {ℓ κ} :
    {A : Type ℓ} {B : Type κ} (first : Result A) (next : A → Result B) {result : B}
    → (first >>= next) ≡ ok result
    → (value : A) × (first ≡ ok value) × (next value ≡ ok result)
>>=-eq-ok (ok value) next h = (value, refl, h)
>>=-eq-ok (err raised) next h = cc

pub >>-eq-ok {ℓ} :
    {B : Type ℓ} (m : Result (Unit {0})) (k : Result B) {b : B}
    → (m >> k) ≡ ok b
    → (m ≡ ok tt) × (k ≡ ok b)
>>-eq-ok (ok tt) k h = (refl, h)
>>-eq-ok (err e) k h = cc

pub raise_if-eq-ok : (b : Bool) (e : Error) → raise_if b e ≡ ok tt → b ≡ false
raise_if-eq-ok true e h = cc
raise_if-eq-ok false e h = refl

pub Result-cases {ℓ} :
    {A : Type ℓ} (r : Result A) → ((a : A) × (r ≡ ok a)) ⊎ ((e : Error) × (r ≡ err e))
Result-cases (ok a) = inl (a, refl)
Result-cases (err e) = inr (e, refl)

pub if-eq-ok {ℓ} :
    {A : Type ℓ} (b : Bool) (a : A) (e : Error) {r : A}
    → (if b then ok a else err e) ≡ ok r
    → (b ≡ true) × (r ≡ a)
if-eq-ok true a e h = (refl, cc)
if-eq-ok false a e h = cc

-- The same inversions in the order in which a proof walks through a `do` block.
pub on_ok {ℓ κ μ} :
    {A : Type ℓ} {B : Type κ} {R : Type μ} (m : Result A) (f : A → Result B) {b : B}
    → (m >>= f) ≡ ok b
    → ((a : A) → m ≡ ok a → f a ≡ ok b → R)
    → R
on_ok (ok a) f h k = k a refl h
on_ok (err e) f h k = cc

pub on_pass {ℓ μ} :
    {B : Type ℓ} {R : Type μ} (test : Bool) (e : Error) (rest : Result B) {b : B}
    → (raise_if test e >> rest) ≡ ok b
    → (test ≡ false → rest ≡ ok b → R)
    → R
on_pass true e rest h k = cc
on_pass false e rest h k = k refl h

pub on_unit {ℓ μ} :
    {B : Type ℓ} {R : Type μ} (m : Result (Unit {0})) (rest : Result B) {b : B}
    → (m >> rest) ≡ ok b
    → (m ≡ ok tt → rest ≡ ok b → R)
    → R
on_unit (ok tt) rest h k = k refl h
on_unit (err e) rest h k = cc

pub ok_injective {ℓ} : {A : Type ℓ} {a b : A} → ok a ≡ ok b → a ≡ b
ok_injective h = cc

pub on_else {ℓ μ} :
    {B : Type ℓ} {R : Type μ} (test : Bool) (e : Error) (rest : Result B) {b : B}
    → (if test then err e else rest) ≡ ok b
    → (test ≡ false → rest ≡ ok b → R)
    → R
on_else true e rest h k = cc
on_else false e rest h k = k refl h
