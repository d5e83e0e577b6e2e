-- ===== src/Master/BuildRequest/Params.antt =====
-- app/master/build_request.py, app/util/util.py: the parameters that a constructor is called with.
use cluster_runner_jie.Prelude.{
  true, false, none, some, String, List, [], ◌∷◌, ◌≡◌, ◌≢◌, refl, sym, ap, ◌∙◌, arith, Bool-cases,
  inl, inr, if◌then◌else◌,
}
use cluster_runner_jie.Prelude.Dict.{
  Dict, lookup, insert, remove, keys, lookup-insert, lookup-remove, String_eq, ℕ_eq,
}
use cluster_runner_jie.Master.BuildRequest.{
  ProjectClass, directory, git, arg_spec, contains, has_key, all_known,
  required_constructor_argument_names,
}

-- The one parameter that a project type cannot do without.
abbrev pub needed : ProjectClass → String
needed directory = "project_directory"
needed git = "url"

pub required-needed : (c : ProjectClass) → required_constructor_argument_names c ≡ needed c ∷ []
unfolding required_constructor_argument_names
required-needed directory = refl
required-needed git = refl

module _ {V : Type 0} where
  pub has_key-lookup : (k : String) (d : Dict String V) → has_key (lookup k d) ≡ contains k (keys d)
  unfolding lookup
  has_key-lookup k [] = refl
  has_key-lookup k ((j, v) ∷ d) = ground (arith, has_key-lookup k d)

pub all_known_of :
    (args ks : List String)
    → ((k : String) → contains k ks ≡ true → contains k args ≡ true)
    → all_known args ks ≡ true
all_known_of args [] h = refl
all_known_of args (k ∷ ks) h =
    let here : contains k args ≡ true = h k (ground (arith, (String_eq.beq_iff k k).1 refl)) in
    rw here (all_known_of args ks (λ j q. h j (ground arith)))

pub not_known :
    (k : String) (args ks : List String)
    → contains k ks ≡ true
    → contains k args ≡ false
    → all_known args ks ≡ false
not_known k args [] h q = cc
not_known k args (j ∷ ks) h q = elim (Bool-cases (String_eq.beq j k)) [
  | inl e ↦ rw ((String_eq.beq_iff j k).0 e, q) refl
  | inr e ↦ ground (arith, not_known k args ks (ground arith) q)
]

-- The parameters that the constructor is called with.
abbrev pub constructor_params : String → Dict String String → Dict String String
constructor_params symlink params = remove "type" (insert "build_project_directory" symlink params)

pub lookup-constructor_params :
    (k symlink : String) (params : Dict String String)
    → lookup k (constructor_params symlink params) ≡ (
        if String_eq.beq "type" k
        then none
        else if String_eq.beq "build_project_directory" k
        then some symlink
        else lookup k params)
lookup-constructor_params k symlink params =
    rw
      (
        lookup-remove "type" k (insert "build_project_directory" symlink params),
        lookup-insert "build_project_directory" k symlink params,
      )
      refl

pub contains-constructor_params :
    (k symlink : String) (params : Dict String String)
    → contains k (keys (constructor_params symlink params)) ≡ (
        if String_eq.beq "type" k
        then false
        else if String_eq.beq "build_project_directory" k
        then true
        else contains k (keys params))
contains-constructor_params k symlink params =
    sym (has_key-lookup k (constructor_params symlink params))
    ∙ ap has_key (lookup-constructor_params k symlink params)
    ∙ ground (arith, has_key-lookup k params)

pub other_key : (k : String) → k ≢ "type" → String_eq.beq "type" k ≡ false
other_key k n = elim (Bool-cases (String_eq.beq "type" k)) [
  | inl q ↦ absurd (n (sym ((String_eq.beq_iff "type" k).0 q)))
  | inr q ↦ q
]

pub knows_symlink : (c : ProjectClass) → contains "build_project_directory" (arg_spec c).args ≡ true
knows_symlink directory = refl
knows_symlink git = refl

pub lookup-needed :
    (c : ProjectClass) (symlink : String) (params : Dict String String)
    → lookup (needed c) (constructor_params symlink params) ≡ lookup (needed c) params
lookup-needed directory symlink params =
    lookup-constructor_params "project_directory" symlink params
lookup-needed git symlink params = lookup-constructor_params "url" symlink params
