-- ===== src/Master/BuildRequest.antt =====
-- app/master/build_request.py, the choice of a project type in app/util/util.py, and the
-- arguments of project types that app/project_type/project_type.py reads from their constructors.
-- The values of parameters are texts; `lower` is the lower case of a text.
pub mod Handling
pub mod Params
pub mod NewBuild
mod Examples
use cluster_runner_jie.Prelude.{
  ℕ, zero, suc, ◌-◌, Bool, true, false, not, ◌&&◌, ◌||◌, Option, none, some, String, List, [], ◌∷◌,
  length, get_elem?, ltb, if◌then◌else◌,
}
use cluster_runner_jie.Prelude.Dict.{Dict, lookup, remove, keys, String_eq}
use cluster_runner_jie.Errors.{Result, ok, err, key_error, type_error}

-- The two subclasses of `ProjectType`.
pub data ProjectClass : Type 0 where
  directory git : ProjectClass

-- What `inspect` finds of a constructor: its arguments without `self`, and the defaults of the last
-- ones, where `none` stands for None.
pub record ArgSpec : Type 0 where
  pub args : List String
  pub defaults : List (Option String)

abbrev pub arg_spec : ProjectClass → ArgSpec
arg_spec directory = record {
  args =
      "project_directory" ∷ "config" ∷ "job_name" ∷ "build_project_directory" ∷ "remote_files" ∷ [];
  defaults = none ∷ none ∷ none ∷ none ∷ [];
}
arg_spec git = record {
  args =
      "url" ∷ "build_project_directory" ∷ "project_directory" ∷ "remote" ∷ "branch" ∷ "config"
      ∷ "job_name" ∷ "remote_files" ∷ "atoms_override" ∷ [];
  defaults = some "" ∷ some "" ∷ some "origin" ∷ some "master" ∷ none ∷ none ∷ none ∷ none ∷ [];
}

pub record ArgumentInfo : Type 0 where
  pub required : Bool
  pub default : Option String

abbrev pub contains : String → List String → Bool
contains k [] = false
contains k (j ∷ js) = String_eq.beq j k || contains k js

abbrev pub has_key {ℓ} : {A : Type ℓ} → Option A → Bool
has_key none = false
has_key (some a) = true

abbrev pub joined : Option (Option String) → Option String
joined none = none
joined (some d) = d

abbrev pub info : ℕ → List (Option String) → ℕ → ArgumentInfo
info num_required defaults i = record {
  required = ltb i num_required;
  default = if ltb i num_required then none else joined (get_elem? defaults (i - num_required));
}

-- The loop over the names, at position `i`.
unfoldable pub arguments_from :
    List String → ℕ → List (Option String) → ℕ → List String → Dict String ArgumentInfo
arguments_from blacklist num_required defaults i [] = []
arguments_from blacklist num_required defaults i (name ∷ names) =
    let rest = arguments_from blacklist num_required defaults (suc i) names in
    if contains name blacklist then rest else (name, info num_required defaults i) ∷ rest

unfoldable pub constructor_arguments_info : List String → ArgSpec → Dict String ArgumentInfo
unfolding arguments_from
constructor_arguments_info blacklist spec =
    arguments_from blacklist (length spec.args - length spec.defaults) spec.defaults 0 spec.args

unfoldable pub required_names : Dict String ArgumentInfo → List String
required_names [] = []
required_names ((name, i) ∷ rest) =
    if i.required then name ∷ required_names rest else required_names rest

unfoldable pub required_constructor_argument_names : ProjectClass → List String
unfolding constructor_arguments_info required_names
required_constructor_argument_names c = required_names (constructor_arguments_info [] (arg_spec c))

abbrev pub subclasses_by_name : Dict String ProjectClass
subclasses_by_name = ("directory", directory) ∷ ("git", git) ∷ []

pub record BuildRequest : Type 0 where
  pub build_parameters : Dict String String
  pub build_type : Option String

abbrev pub required_of : Option ProjectClass → List String
required_of none = []
required_of (some c) = required_constructor_argument_names c

-- The set difference of the required names and the keys, if it is empty.
abbrev pub none_missing : List String → Dict String String → Bool
none_missing [] params = true
none_missing (name ∷ names) params = has_key (lookup name params) && none_missing names params

-- A call with keyword arguments: Python refuses unknown names and missing arguments.
abbrev pub all_known : List String → List String → Bool
all_known args [] = true
all_known args (k ∷ ks) = contains k args && all_known args ks

-- `construct` is what the body of the constructor comes to.
unfoldable pub call_constructor :
    (ProjectClass → Dict String String → Result (Unit {0}))
    → ProjectClass
    → Dict String String
    → Result (Option ProjectClass)
unfolding lookup required_constructor_argument_names
call_constructor construct c params =
    if all_known (arg_spec c).args (keys params)
      && none_missing (required_constructor_argument_names c) params
    then elim (construct c params) [ err e ↦ err e | ok u ↦ ok (some c) ]
    else err type_error

module _ (lower : String → String) where
  -- An empty type counts as none.
  abbrev pub type_of : Option String → Option String
  type_of none = none
  type_of (some t) = if String_eq.beq t "" then none else some (lower t)

  unfoldable pub new_request : Dict String String → BuildRequest
  unfolding lookup
  new_request params = record {
    build_parameters = params;
    build_type = type_of (lookup "type" params);
  }

  unfoldable pub get_project_type_subclass : String → Option ProjectClass
  unfolding lookup
  get_project_type_subclass name = lookup (lower name) subclasses_by_name

  -- Whether a name is known; None is not.
  unfoldable pub subclass_of : Option String → Option ProjectClass
  unfolding get_project_type_subclass
  subclass_of none = none
  subclass_of (some t) = get_project_type_subclass t

  unfoldable pub is_valid_type : BuildRequest → Bool
  unfolding subclass_of
  is_valid_type r = has_key (subclass_of r.build_type)

  unfoldable pub required_parameters : BuildRequest → List String
  unfolding subclass_of required_constructor_argument_names
  required_parameters r = required_of (subclass_of r.build_type)

  unfoldable pub is_valid : BuildRequest → Bool
  unfolding is_valid_type required_parameters lookup
  is_valid r =
      has_key r.build_type
      && is_valid_type r
      && none_missing (required_parameters r) r.build_parameters

  module _ (construct : ProjectClass → Dict String String → Result (Unit {0})) where
    unfoldable pub create_of :
        Option ProjectClass → Dict String String → Result (Option ProjectClass)
    create_of none params = ok none
    create_of (some c) params = call_constructor construct c params

    unfoldable pub create_named : Option String → Dict String String → Result (Option ProjectClass)
    create_named none params = err key_error
    create_named (some name) params =
        create_of (get_project_type_subclass name) (remove "type" params)

    unfoldable pub create_project_type : Dict String String → Result (Option ProjectClass)
    create_project_type params = create_named (lookup "type" params) params
