-- ===== src/Master/JobConfig.antt =====
-- app/master/job_config.py. A configuration is what the
-- library yaml reads; of its values the program tells texts, whole numbers, lists of texts and lists
-- of dictionaries from all others.
pub mod Validation
use cluster_runner_jie.Prelude.{
  ℕ, Bool, true, false, not, ◌&&◌, Option, none, some, String, List, [], ◌∷◌, if◌then◌else◌,
}
use cluster_runner_jie.Prelude.Int.{ℤ}
use cluster_runner_jie.Prelude.Dict.{Dict, lookup, insert, String_eq, Eq}
use cluster_runner_jie.Errors.{
  Error, attribute_error, index_error, config_validation, config_parse, job_not_found,
  job_not_specified, Result, ok, err, ◌>>=◌,
}

pub data Item : Type 0 where
  no_item : Item
  item_text : String → Item
  item_dict : Dict String String → Item
  other_item : Item

pub data Section : Type 0 where
  number : ℤ → Section
  items : List Item → Section
  other_section : Section

-- What `type` says of a section, with that of its first item for a list.
pub data SectionType : Type 0 where
  int list_str list_dict other_type : SectionType

pub record JobConfig : Type 0 where
  pub name : String
  pub setup_build : Option String
  pub teardown_build : Option String
  pub command : Option String
  pub atomizer : List Item
  -- `none` for `sys.maxsize`
  pub max_executors : Option ℤ
  pub max_executors_per_slave : Option ℤ

-- What is used of Python's texts: `strip`, `rstrip(';')`, `rstrip('&')`, `endswith('&')`,
-- `endswith('&&')` and `+`.
pub record Texts : Type 0 where
  pub strip : String → String
  pub rstrip_semicolons : String → String
  pub rstrip_ampersands : String → String
  pub ends_with_ampersand : String → Bool
  pub ends_with_and : String → Bool
  pub append : String → String → String

unfoldable pub expected_type : String → Option SectionType
expected_type k =
    if String_eq.beq k "setup_build"
    then some list_str
    else if String_eq.beq k "teardown_build"
    then some list_str
    else if String_eq.beq k "commands"
    then some list_str
    else if String_eq.beq k "atomizers"
    then some list_dict
    else if String_eq.beq k "max_executors"
    then some int
    else if String_eq.beq k "max_executors_per_slave"
    then some int
    else none

abbrev pub item_type : Item → SectionType
item_type (item_text x) = list_str
item_type (item_dict d) = list_dict
item_type no_item = other_type
item_type other_item = other_type

-- The first item of an empty list is asked for, too.
unfoldable pub type_of : Section → Result SectionType
type_of (number n) = ok int
type_of (items []) = err index_error
type_of (items (x ∷ xs)) = ok (item_type x)
type_of other_section = ok other_type

abbrev pub same_type : SectionType → SectionType → Bool
same_type int int = true
same_type list_str list_str = true
same_type list_dict list_dict = true
same_type _ _ = false

unfoldable pub check_section : String → Section → Option Error
unfolding expected_type type_of
check_section k v = elim (expected_type k) [
  | none ↦ some config_validation
  | some t ↦ elim (type_of v) [
    | err e ↦ some e
    | ok t' ↦ if same_type t t' then none else some config_validation
  ]
]

unfoldable pub check_sections : Dict String Section → Option Error
unfolding check_section
check_sections [] = none
check_sections ((k, v) ∷ d) =
    let rest = check_sections d in elim (check_section k v) [ some e ↦ some e | none ↦ rest ]

abbrev pub has : String → Dict String Section → Bool
has k d = elim (lookup k d) [ none ↦ false | some v ↦ true ]

-- `none` for a configuration that is no dictionary
unfoldable pub validate : Option (Dict String Section) → Option Error
unfolding check_sections
validate none = some config_validation
validate (some d) =
    if has "commands" d && has "atomizers" d then check_sections d else some config_validation

-- The loop of `_shell_command_list_to_single_command`
unfoldable pub sanitized : Texts → List Item → Result String
sanitized t [] = ok ""
sanitized t (no_item ∷ xs) = sanitized t xs
sanitized t (item_text x ∷ xs) =
    let stripped = t.rstrip_semicolons (t.strip x) in
    let postfix = if t.ends_with_ampersand (t.strip stripped) then " " else " && " in
    sanitized t xs >>= (λ rest. ok (t.append (t.append stripped postfix) rest))
sanitized t (item_dict d ∷ xs) = err attribute_error
sanitized t (other_item ∷ xs) = err attribute_error

abbrev without_and : Texts → String → String
without_and t x = if t.ends_with_and x then t.strip (t.rstrip_ampersands x) else x

unfoldable pub shell_command_list_to_single_command :
    Texts → Option Section → Result (Option String)
unfolding sanitized
shell_command_list_to_single_command t (some (items xs)) =
    sanitized t xs >>= (λ joined. ok (some (without_and t (t.strip joined))))
shell_command_list_to_single_command t _ = ok none

abbrev pub number_of : Option Section → Option ℤ
number_of (some (number n)) = some n
number_of _ = none

abbrev pub items_of : Option Section → List Item
items_of (some (items xs)) = xs
items_of _ = []

unfoldable pub unpack : Texts → String → Dict String Section → Result JobConfig
unfolding shell_command_list_to_single_command
unpack t name d = shell_command_list_to_single_command t (lookup "setup_build" d) >>= (λ setup.
    shell_command_list_to_single_command t (lookup "teardown_build" d) >>= (λ teardown.
      shell_command_list_to_single_command t (lookup "commands" d) >>= (λ command. ok (record {
        name = name;
        setup_build = setup;
        teardown_build = teardown;
        command = command;
        atomizer = items_of (lookup "atomizers" d);
        max_executors = number_of (lookup "max_executors" d);
        max_executors_per_slave = number_of (lookup "max_executors_per_slave" d);
      }))))

abbrev pub unpacked :
    Texts → String → Option (Dict String Section) → Option Error → Result JobConfig
unpacked t name config (some e) = err e
unpacked t name none none = err config_validation
unpacked t name (some d) none = unpack t name d

unfoldable pub construct_from_dict :
    Texts → String → Option (Dict String Section) → Result JobConfig
unfolding validate unpack
construct_from_dict t name config = unpacked t name config (validate config)
