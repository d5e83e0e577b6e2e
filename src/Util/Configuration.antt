-- ===== src/Util/Configuration.antt =====
-- app/util/conf: configuration.py, and the sections of a file in base_config_loader.py. How `int`
-- reads a text, `lower` and `expanduser` are the library's; a file is what ConfigObj reads from it.
pub mod Types
mod Examples
use cluster_runner_jie.Prelude.{
  Bool, true, false, Option, none, some, String, List, [], ◌∷◌, if◌then◌else◌,
}
use cluster_runner_jie.Prelude.Int.{ℤ}
use cluster_runner_jie.Prelude.Dict.{Dict, lookup, insert, Eq, String_eq}
use cluster_runner_jie.Errors.{
  Error, key_error, value_error, type_error, attribute_error, invalid_config, Result, ok, err,
}

-- A value of the configuration.
pub data Value : Type 0 where
  is_none : Value
  bool : Bool → Value
  int : ℤ → Value
  str : String → Value
  list : List String → Value

-- A value in a file: a text, or a list of texts where there is a comma.
pub data Entry : Type 0 where
  text : String → Entry
  texts : List String → Entry

abbrev pub Configuration : Type 0
Configuration = Dict String Value

-- What the program uses of Python's texts.
pub record Texts : Type 0 where
  pub lower : String → String
  pub parse_int : String → Option ℤ
  pub starts_with_tilde : String → Bool
  pub expanduser : String → String

unfoldable pub set : String → Value → Configuration → Configuration
set name value conf = insert name value conf

unfoldable pub get : String → Configuration → Result Value
get name conf = elim (lookup name conf) [ none ↦ err key_error | some v ↦ ok v ]

-- The test of the value's type is `and`ed, so that it never raises `InvalidConfigError`: a text that
-- is neither word is no key of the mapping, and a list has no `lower`.
unfoldable pub cast_bool : Texts → Entry → Result Value
cast_bool t (texts xs) = err attribute_error
cast_bool t (text x) =
    if String_eq.beq (t.lower x) "true"
    then ok (bool true)
    else if String_eq.beq (t.lower x) "false"
    then ok (bool false)
    else err key_error

unfoldable pub cast_int : Texts → Entry → Result Value
cast_int t (texts xs) = err type_error
cast_int t (text x) = elim (t.parse_int x) [ none ↦ err value_error | some n ↦ ok (int n) ]

unfoldable pub cast_list : Entry → Result Value
cast_list (texts xs) = ok (list xs)
cast_list (text x) = ok (list (x ∷ []))

unfoldable pub cast_str : Texts → Entry → Result Value
cast_str t (texts xs) = err attribute_error
cast_str t (text x) = ok (str (if t.starts_with_tilde x then t.expanduser x else x))

-- By the type of the default value
unfoldable pub cast : Texts → Value → Entry → Result Value
unfolding cast_bool cast_int cast_list cast_str
cast t (bool b) e = cast_bool t e
cast t (int n) e = cast_int t e
cast t (list xs) e = cast_list e
cast t (str x) e = cast_str t e
cast t is_none e = cast_str t e

abbrev set_cast : String → Result Value → Configuration → Configuration × Option Error
set_cast key (ok v) conf = (set key v conf, none)
set_cast key (err e) conf = (conf, some e)

abbrev cast_from :
    Texts → String → Entry → Configuration → Result Value → Configuration × Option Error
cast_from t key e conf (ok v) = set_cast key (cast t v e) conf
cast_from t key e conf (err x) = (conf, some x)

unfoldable pub cast_and_set : Texts → String → Entry → Configuration → Configuration × Option Error
unfolding cast set get
cast_and_set t key e conf = cast_from t key e conf (get key conf)

abbrev pub is_in : String → List String → Bool
is_in k [] = false
is_in k (x ∷ xs) = if String_eq.beq x k then true else is_in k xs

-- The loop over the keys of the section. What was set before a key that raises stays.
unfoldable pub load_keys :
    Texts → List String → List (String × Entry) → Configuration → Configuration × Option Error
unfolding cast_and_set
load_keys t whitelist [] conf = (conf, none)
load_keys t whitelist ((key, e) ∷ es) conf = elim (is_in key whitelist) [
  | false ↦ (conf, some invalid_config)
  | true ↦
      let (conf', raised) = cast_and_set t key e conf in
      elim raised [ some x ↦ (conf', some x) | none ↦ load_keys t whitelist es conf' ]
]

-- The file was there, or was copied from the sample.
unfoldable pub load_section :
    Texts
    → List String
    → Dict String (List (String × Entry))
    → String
    → Configuration
    → Configuration × Option Error
unfolding load_keys
load_section t whitelist parsed section conf = elim (lookup section parsed) [
  | none ↦ (conf, some invalid_config)
  | some es ↦ load_keys t whitelist es conf
]

-- `CONFIG_FILE_SECTION` of the loader's class: the empty text for no section of its own
unfoldable pub load_from_config_file :
    Texts
    → List String
    → Dict String (List (String × Entry))
    → Option String
    → Configuration
    → Configuration × Option Error
unfolding load_section
load_from_config_file t whitelist parsed section conf =
    let (conf', raised) = load_section t whitelist parsed "general" conf in
    elim raised [
      | some x ↦ (conf', some x)
      | none ↦ elim section [
        | none ↦ (conf', none)
        | some s ↦ load_section t whitelist parsed s conf'
      ]
    ]
