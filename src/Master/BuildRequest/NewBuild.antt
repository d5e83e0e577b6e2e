-- ===== src/Master/BuildRequest/NewBuild.antt =====
-- What comes of a request for a new build.
use cluster_runner_jie.Prelude.{
  ℕ, suc, true, false, Option, none, some, String, [], ◌∷◌, ◌++◌, ◌≡◌, ◌≢◌, refl, sym, ap, subst,
  ◌∙◌, arith, Bool-cases, inl, inr, if◌then◌else◌,
}
use cluster_runner_jie.Prelude.Dict.{
  Dict, lookup, insert, remove, keys, lookup-insert, String_eq, ℕ_eq,
}
use cluster_runner_jie.Errors.{Error, Result, ok, err, type_error}
use cluster_runner_jie.Master.Build.{Build, new_build}
use cluster_runner_jie.Master.Registry.{get, add, found}
use cluster_runner_jie.Master.BuildRequest.{
  ProjectClass, arg_spec, contains, has_key, get_project_type_subclass, subclass_of,
  subclasses_by_name, is_valid, is_valid_type, required_parameters, new_request, call_constructor,
  create_project_type, create_named, create_of,
}
use cluster_runner_jie.Master.BuildRequest.Handling.{
  Requests, build_id, missing_parameter, generate_project_type, start_request,
  handle_request_for_new_build, handle_build_request, queue_build, with_project_type,
}
use cluster_runner_jie.Master.BuildRequest.Params.{
  needed, required-needed, all_known_of, not_known, constructor_params, contains-constructor_params,
  other_key, knows_symlink, lookup-needed,
}

get-insert : (i : ℕ) (b : Build) (bs : Dict ℕ Build) → get i (insert i b bs) ≡ ok b
unfolding get
get-insert i b bs = ap found (lookup-insert i i b bs ∙ same)
  where
    same : (if ℕ_eq.beq i i then some b else lookup i bs) ≡ some b
    same = ground arith

queued_build :
    (b : Build) (l : Requests)
    → let r = queue_build l (ok b) in
      (r.1 ≡ ok (true, build_id b.build_id))
      × (get b.build_id r.0.master.builds ≡ ok b)
      × (r.0.request_queue ≡ l.request_queue ++ b.build_id ∷ [])
unfolding queue_build handle_build_request
queued_build b l = (refl, get-insert b.build_id b l.master.builds, refl)

-- The build is created and stored in any case, under the next id.
abbrev pub stored : ℕ → Requests → Requests
stored now s =
    let m = s.master in
    record s {
      build_id_counter = suc s.build_id_counter;
      master = record m { builds = add (new_build (suc s.build_id_counter) now) m.builds };
    }

left_build :
    (now : ℕ) (s : Requests) (e : Error)
    → let r = queue_build (stored now s) (err e) in
      (r.1 ≡ err e)
      × (get (suc s.build_id_counter) r.0.master.builds
          ≡ ok (new_build (suc s.build_id_counter) now))
      × (r.0.request_queue ≡ s.request_queue)
unfolding queue_build add new_build
left_build now s e = (
  refl,
  get-insert (suc s.build_id_counter) (new_build (suc s.build_id_counter) now) s.master.builds,
  refl,
)

module _ (lower : String → String)
    (construct : ProjectClass → Dict String String → Result (Unit {0})) where
  module _ (c : ProjectClass) (symlink : String) (params : Dict String String) where
    call_known :
        has_key (lookup (needed c) params) ≡ true
        → ((k : String)
            → contains k (keys params) ≡ true
            → k ≢ "type"
            → contains k (arg_spec c).args ≡ true)
        → construct c (constructor_params symlink params) ≡ ok tt
        → call_constructor construct c (constructor_params symlink params) ≡ ok (some c)
    unfolding call_constructor
    call_known has known built =
        rw
          (
            all_known_of (arg_spec c).args (keys (constructor_params symlink params)) accepted,
            required-needed c,
            lookup-needed c symlink params,
            has,
            built,
          )
          refl
      where
        accepted :
            (k : String)
            → contains k (keys (constructor_params symlink params)) ≡ true
            → contains k (arg_spec c).args ≡ true
        accepted k q = elim (Bool-cases (String_eq.beq "build_project_directory" k)) [
          | inl e ↦
              subst (λ j. contains j (arg_spec c).args ≡ true)
                ((String_eq.beq_iff "build_project_directory" k).0 e) (knows_symlink c)
          | inr e ↦ known k (ground (arith, contains-constructor_params k symlink params)) (λ t.
              ground (
                arith,
                contains-constructor_params k symlink params,
                (String_eq.beq_iff "type" k).1 (sym t),
              ))
        ]

    call_unknown :
        (k : String)
        → contains k (keys params) ≡ true
        → k ≢ "type"
        → contains k (arg_spec c).args ≡ false
        → call_constructor construct c (constructor_params symlink params) ≡ err type_error
    unfolding call_constructor
    call_unknown k q n u =
        rw
          (not_known k (arg_spec c).args (keys (constructor_params symlink params)) (present k q n)
            u)
          refl
      where
        present :
            (k : String)
            → contains k (keys params) ≡ true
            → k ≢ "type"
            → contains k (keys (constructor_params symlink params)) ≡ true
        present k q n =
            contains-constructor_params k symlink params ∙ rw (other_key k n) (ground arith)

  module _ (symlink t : String) (params : Dict String String) (c : ProjectClass)
      (typed : lookup "type" params ≡ some t) (given : String_eq.beq t "" ≡ false)
      (same : lower (lower t) ≡ lower t)
      (subclass : get_project_type_subclass lower t ≡ some c) where
    subclass_again : get_project_type_subclass lower (lower t) ≡ some c
    unfolding get_project_type_subclass
    subclass_again = ap (λ n. lookup n subclasses_by_name) same ∙ subclass

    valid-has : is_valid lower (new_request lower params) ≡ has_key (lookup (needed c) params)
    unfolding is_valid new_request is_valid_type required_parameters subclass_of
    valid-has = rw (typed, given, subclass_again, required-needed c) (ground arith)

    valid_type-typed : is_valid_type lower (new_request lower params) ≡ true
    unfolding new_request is_valid_type subclass_of
    valid_type-typed = rw (typed, given, subclass_again) refl

    required-typed : required_parameters lower (new_request lower params) ≡ needed c ∷ []
    unfolding new_request required_parameters subclass_of
    required-typed = rw (typed, given, subclass_again) (required-needed c)

    still_typed : lookup "type" (insert "build_project_directory" symlink params) ≡ some t
    still_typed = lookup-insert "build_project_directory" "type" symlink params ∙ typed

    created :
        (ps : Dict String String)
        → lookup "type" ps ≡ some t
        → create_project_type lower construct ps ≡ call_constructor construct c (remove "type" ps)
    unfolding create_project_type create_named create_of
    created ps e = rw (e, subclass) refl

    generated :
        {r : Result (Option ProjectClass)}
        → call_constructor construct c (constructor_params symlink params) ≡ r
        → create_project_type lower construct (insert "build_project_directory" symlink params) ≡ r
    generated e = created (insert "build_project_directory" symlink params) still_typed ∙ e

    module _ (now : ℕ) (s : Requests) where
      abbrev next_id : ℕ
      next_id = suc s.build_id_counter

      started :
          {r : Result (Option ProjectClass)}
          → call_constructor construct c (constructor_params symlink params) ≡ r
          → start_request lower construct now symlink params s
            ≡ queue_build (stored now s) (with_project_type r (new_build next_id now))
      unfolding start_request generate_project_type
      started e =
          ap (λ r. queue_build (stored now s) (with_project_type r (new_build next_id now)))
            (generated e)

      accepted :
          {r : Result (Option ProjectClass)}
          → has_key (lookup (needed c) params) ≡ true
          → call_constructor construct c (constructor_params symlink params) ≡ r
          → handle_request_for_new_build lower construct now symlink params s
            ≡ queue_build (stored now s) (with_project_type r (new_build next_id now))
      unfolding handle_request_for_new_build
      accepted has e = rw (valid-has, has) (started e)

      missing :
          has_key (lookup (needed c) params) ≡ false
          → handle_request_for_new_build lower construct now symlink params s
            ≡ (s, ok (false, missing_parameter (needed c ∷ [])))
      unfolding handle_request_for_new_build
      missing has = rw (valid-has, has, valid_type-typed, required-typed) refl

      -- A request with a known type. If it lacks the parameter that the type needs, it is refused and
      -- nothing changes. If it has it, and no parameter that the type does not know, and the
      -- constructor succeeds, the build is in the store under the next id, with its project type,
      -- and is queued to be prepared. But if it has a parameter that the type does not know, the
      -- call raises, and leaves a build in the store, without a project type and never queued.
      pub handle_request_for_new_build_lem :
          let r = handle_request_for_new_build lower construct now symlink params s in
          (lookup (needed c) params ≡ none → r ≡ (s, ok (false, missing_parameter (needed c ∷ []))))
          × ((v : String)
              → lookup (needed c) params ≡ some v
              → ((k : String)
                  → contains k (keys params) ≡ true
                  → k ≢ "type"
                  → contains k (arg_spec c).args ≡ true)
              → construct c (constructor_params symlink params) ≡ ok tt
              → (r.1 ≡ ok (true, build_id next_id))
                × (get next_id r.0.master.builds
                    ≡ ok (record (new_build next_id now) { has_project_type = true }))
                × (r.0.request_queue ≡ s.request_queue ++ next_id ∷ []))
          × ((v k : String)
              → lookup (needed c) params ≡ some v
              → contains k (keys params) ≡ true
              → k ≢ "type"
              → contains k (arg_spec c).args ≡ false
              → (r.1 ≡ err type_error)
                × (get next_id r.0.master.builds ≡ ok (new_build next_id now))
                × (r.0.request_queue ≡ s.request_queue))
      unfolding with_project_type new_build
      handle_request_for_new_build_lem = (
        λ e. missing (ap has_key e),
        λ v e known built.
            rw (accepted (ap has_key e) (call_known c symlink params (ap has_key e) known built)) (
              queued_build (record (new_build next_id now) { has_project_type = true })
                (stored now s)),
        λ v k e q n u.
            rw (accepted (ap has_key e) (call_unknown c symlink params k q n u))
              (left_build now s type_error),
      )
