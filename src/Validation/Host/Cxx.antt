-- ===== src/Validation/Host/Cxx.antt =====
-- `validate_host_cxx_runtime` of validation.py: the C++ runtime that the process has loaded.
use k_dash.Base.{
  ℕ, String, Char, Bool, true, false, not, ◌&&◌, Option, none, some, List, [], ◌∷◌, ◌==◌, leb,
  length, if◌then◌else◌, Result, ok, err, raise_if, raise_python, ◌>>=◌ as ◌>>=ᴿ◌, Error, key_error,
  type_error, value_error, attribute_error,
}
use k_dash.Base.Exec.{Exec, pure, lift, ◌>>=◌, ◌>>◌}
use k_dash.Base.Text.{strip_prefix, is_space}
use k_dash.Json.{Value, null, str, obj, Fields, get_field, get_or_null}
use k_dash.Validation.Versions.{split_dots, whole_numbers, last_part, tuple_lt, maximum_version}
use k_dash.Validation.Host.{host_error, Linker, Process, last_field, inspect, open_now}

abbrev pub split_first : Char → List String → List String
split_first c [] = String.◌∷◌ c "" ∷ []
split_first c (word ∷ words) = String.◌∷◌ c word ∷ words

abbrev pub starts_word : String → Bool
starts_word String.[] = false
starts_word (String.◌∷◌ c s) = not (is_space c)

-- `line.split()`
unfoldable pub split_words : String → List String
split_words String.[] = []
split_words (String.◌∷◌ c s) =
    let words = split_words s in
    if is_space c
    then words
    else if starts_word s
    then split_first c words
    else String.◌∷◌ c "" ∷ words

-- `needle in text`
unfoldable pub is_part : (needle text : String) → Bool
is_part needle String.[] = needle == ""
is_part needle (String.◌∷◌ c s) = elim (strip_prefix needle (String.◌∷◌ c s)) [
  | some rest ↦ true
  | none ↦ is_part needle s
]

module _ {P : Type 0} (linker : Linker P) where
  -- `removesuffix(" (deleted)")` takes nothing away: the last field of a line has no space.
  abbrev pub search_lines : (soname : String) → List String → P → Option String
  search_lines soname [] p = none
  search_lines soname (line ∷ lines) p =
      let fields = split_words line in
      let path = last_field fields in
      if leb 6 (length fields) && is_part soname path && linker.is_file path p
      then some path
      else search_lines soname lines p

  -- `_loaded_library_path`
  unfoldable pub loaded_library_path : (soname : String) → P → Option String
  unfolding split_words is_part
  loaded_library_path soname p = elim (linker.maps p) [
    | none ↦ none
    | some lines ↦ search_lines soname lines p
  ]

-- `requirement[key]` that is to be the name of a library
abbrev pub requirement_text : (key : String) → Value → Result String
requirement_text key (obj fs) = elim (get_field key fs) [
  | none ↦ raise_python key_error
  | some (str s) ↦ ok s
  | some _ ↦ raise_python type_error
]
requirement_text key _ = raise_python type_error

-- `_version_tuple` with the ValueError of a part that is no number
abbrev pub numbers_of : (version : String) → Result (List ℕ)
numbers_of version = elim (whole_numbers (split_dots (last_part version))) [
  | none ↦ raise_python value_error
  | some ns ↦ ok ns
]

abbrev pub libstdcxx_error : Error
libstdcxx_error = host_error "loaded libstdc++ does not satisfy the Build requirement"

abbrev pub check_at_least : (available required : String) → Result (Unit {0})
check_at_least available required = numbers_of available >>=ᴿ λ a.
    numbers_of required >>=ᴿ λ r. raise_if (tuple_lt a r) libstdcxx_error

-- One of the two requirements: None asks for nothing.
unfoldable pub check_provided :
    (provided : List String) → (prefix : String) → Value → Result (Unit {0})
check_provided provided prefix null = ok tt
check_provided provided prefix (str required) = elim (maximum_version provided prefix) [
  | none ↦ err libstdcxx_error
  | some available ↦ check_at_least available required
]
check_provided provided prefix v = elim (maximum_version provided prefix) [
  | none ↦ err libstdcxx_error
  | some available ↦ raise_python attribute_error
]

-- `requirement.get(key)` of what was indexed before
abbrev pub field_of : (key : String) → Value → Value
field_of key (obj fs) = get_or_null key fs
field_of key _ = null

module _ {P : Type 0} (linker : Linker P) where
  abbrev pub unavailable : Error
  unavailable = host_error "required C++ runtime library is unavailable"

  abbrev pub load_unless : (soname : String) → Option String → Exec (Process P) (Unit {0})
  load_unless soname none = open_now linker unavailable soname
  load_unless soname (some path) = pure tt

  -- One of the two libraries of C++
  abbrev pub load_library : (soname : String) → Exec (Process P) (Unit {0})
  load_library soname = do
    path ← inspect (loaded_library_path linker soname)
    load_unless soname path

  abbrev pub identified : Option String → Result String
  identified none = err (host_error "loaded libstdc++ path cannot be identified")
  identified (some path) = ok path

  abbrev pub read_definitions : (path : String) → Exec (Process P) (List String)
  read_definitions path s = (linker.version_definitions path s.inner, s)

  abbrev pub require_cxx : Value → Exec (Process P) (Unit {0})
  require_cxx null = pure tt
  require_cxx requirement = do
    soname ← lift (requirement_text "soname" requirement)
    unwind ← lift (requirement_text "unwind_soname" requirement)
    load_library soname
    load_library unwind
    found ← inspect (loaded_library_path linker soname)
    library ← lift (identified found)
    provided ← read_definitions library
    lift (check_provided provided "GLIBCXX_" (field_of "required_glibcxx" requirement))
    lift (check_provided provided "CXXABI_" (field_of "required_cxxabi" requirement))

  unfoldable pub validate_host_cxx_runtime : Fields → Exec (Process P) (Unit {0})
  unfolding loaded_library_path check_provided
  validate_host_cxx_runtime config = require_cxx (get_or_null "cxx_runtime" config)
