-- ===== src/Master/ClusterRunnerConfig/Choice.antt =====
-- Which job a build gets.
use cluster_runner_jie.Prelude.{
  true, false, Option, none, some, String, [], ◌∷◌, ◌≡◌, ◌≢◌, ◌⊎◌, refl, sym, ap, subst, ◌∙◌, arith,
  Bool-cases, inl, inr,
}
use cluster_runner_jie.Prelude.Dict.{Dict, lookup, insert, lookup-insert, keys, String_eq}
use cluster_runner_jie.Errors.{Error, job_not_found, Result, ok, err}
use cluster_runner_jie.Util.OrderedSet.Links.{Distinct}
use cluster_runner_jie.Common.BuildArtifact.Timing.{or_else, lookup-fresh, lookup-insert_other}
use cluster_runner_jie.Master.JobConfig.{Section, JobConfig, Texts, construct_from_dict}
use cluster_runner_jie.Master.ClusterRunnerConfig.{
  RawConfig, ClusterRunnerConfig, parse_jobs, parse_raw_config, parsed, choose, chosen, new,
  get_job_config,
}
use cluster_runner_jie.Master.JobConfig.Validation.{IsJob, constructed}

abbrev pub IsFileOfJobs : RawConfig → Type 0
IsFileOfJobs [] = Unit
IsFileOfJobs ((name, none) ∷ d) = ⊥
IsFileOfJobs ((name, some s) ∷ d) = IsJob s × IsFileOfJobs d

abbrev job_of : Result JobConfig → Option JobConfig
job_of (ok job) = some job
job_of (err e) = none

module _ {V : Type 0} where
  lookup-head_other :
      (k name : String) (v : V) (d : Dict String V)
      → String_eq.beq name k ≡ false
      → lookup k ((name, v) ∷ d) ≡ lookup k d
  unfolding lookup
  lookup-head_other k name v d q = rw q refl

  lookup-head : (name : String) (v : V) (d : Dict String V) → lookup name ((name, v) ∷ d) ≡ some v
  unfolding lookup
  lookup-head name v d = rw ((String_eq.beq_iff name name).1 refl) refl

  lookup-insert_same :
      (name : String) (v : V) (d : Dict String V) → lookup name (insert name v d) ≡ some v
  lookup-insert_same name v d =
      lookup-insert name name v d ∙ rw ((String_eq.beq_iff name name).1 refl) refl

module _ (t : Texts) where
  abbrev job_for : String → Option (Option (Dict String Section)) → Option JobConfig
  job_for name none = none
  job_for name (some s) = job_of (construct_from_dict t name s)

  -- The job that a name stands for in a file.
  abbrev job_in : String → RawConfig → Option JobConfig
  job_in name d = job_for name (lookup name d)

  parse_jobs-next :
      (name : String) (s : Option (Dict String Section)) (d : RawConfig)
      (jobs : Dict String JobConfig) (job : JobConfig)
      → construct_from_dict t name s ≡ ok job
      → parse_jobs t ((name, s) ∷ d) jobs ≡ parse_jobs t d (insert name job jobs)
  unfolding parse_jobs
  parse_jobs-next name s d jobs job h = ground (arith, h)

  parse_jobs-lookup :
      (d : RawConfig) (jobs : Dict String JobConfig)
      → IsFileOfJobs d
      → Distinct (keys d)
      → ((parse_jobs t d jobs).1 ≡ none)
        × ((k : String) → lookup k (parse_jobs t d jobs).0 ≡ or_else (job_in k d) (lookup k jobs))
  parse_jobs-lookup [] jobs h u = unfold parse_jobs lookup in (refl, λ k. refl)
  parse_jobs-lookup ((name, none) ∷ d) jobs h u = absurd h
  parse_jobs-lookup ((name, some s) ∷ d) jobs h u =
      let (job, q) = constructed t name s h.0 in
      let rest = parse_jobs-lookup d (insert name job jobs) h.1 u.1 in
      let next = parse_jobs-next name (some s) d jobs job q in
      (
        ap (λ r. r.1) next ∙ rest.0,
        λ k.
            ap (λ r. lookup k r.0) next
            ∙ rest.1 k
            ∙ found k job q (Bool-cases (String_eq.beq name k)),
      )
    where
      found :
          (k : String) (job : JobConfig)
          → construct_from_dict t name (some s) ≡ ok job
          → (String_eq.beq name k ≡ true) ⊎ (String_eq.beq name k ≡ false)
          → or_else (job_in k d) (lookup k (insert name job jobs))
            ≡ or_else (job_in k ((name, some s) ∷ d)) (lookup k jobs)
      found k job q (inl e) =
          subst
            (λ k.
              or_else (job_in k d) (lookup k (insert name job jobs))
              ≡ or_else (job_in k ((name, some s) ∷ d)) (lookup k jobs))
            ((String_eq.beq_iff name k).0 e)
            (ap (λ o. or_else (job_for name o) (lookup name (insert name job jobs)))
                (lookup-fresh name d u.0)
              ∙ lookup-insert_same name job jobs
              ∙ sym (
                  ap (λ o. or_else (job_for name o) (lookup name jobs))
                    (lookup-head name (some s) d)
                  ∙ ap (λ r. or_else (job_of r) (lookup name jobs)) q))
      found k job q (inr e) =
          ap (or_else (job_in k d)) (lookup-insert_other name k job jobs e)
          ∙ ap (λ o. or_else o (lookup k jobs))
              (sym (ap (job_for k) (lookup-head_other k name (some s) d e)))

  parse_raw_config-jobs :
      (d : RawConfig) (jobs : Dict String JobConfig)
      → parse_jobs t d [] ≡ (jobs, none)
      → jobs ≢ []
      → parse_raw_config t (new (some d))
        ≡ (record { raw_config = some d; job_configs = some jobs }, none)
  unfolding parse_raw_config
  parse_raw_config-jobs d [] h n = absurd (n refl)
  parse_raw_config-jobs d (j ∷ jobs) h n = ap (parsed (new (some d))) h

  get_job_config-first :
      (d : RawConfig) (jobs : Dict String JobConfig) (name : Option String)
      → parse_jobs t d [] ≡ (jobs, none)
      → jobs ≢ []
      → get_job_config t name (new (some d))
        ≡ (record { raw_config = some d; job_configs = some jobs }, choose name jobs)
  unfolding get_job_config
  get_job_config-first d jobs name h n = ap (chosen name) (parse_raw_config-jobs d jobs h n)

  get_job_config-again :
      (d : RawConfig) (jobs : Dict String JobConfig) (name : Option String)
      → let c : ClusterRunnerConfig = record { raw_config = some d; job_configs = some jobs } in
        get_job_config t name c ≡ (c, choose name jobs)
  unfolding get_job_config
  get_job_config-again d jobs name = refl

  file-ok :
      (d : RawConfig) (name : String) (s : Option (Dict String Section))
      → IsFileOfJobs d
      → lookup name d ≡ some s
      → (job : JobConfig) × (construct_from_dict t name s ≡ ok job)
  file-ok [] name s h q = absurd (unfold lookup in ground arith)
  file-ok ((j, none) ∷ d) name s h q = absurd h
  file-ok ((j, some x) ∷ d) name s h q = elim (Bool-cases (String_eq.beq j name)) [
    | inl e ↦
        let there =
          subst (λ k. lookup k ((j, some x) ∷ d) ≡ some s) (sym ((String_eq.beq_iff j name).0 e))
            q in
        subst (λ y. (job : JobConfig) × (construct_from_dict t name y ≡ ok job))
          (ground (arith, there, lookup-head j (some x) d)) (constructed t name x h.0)
    | inr e ↦ file-ok d name s h.1 (sym (lookup-head_other name j (some x) d e) ∙ q)
  ]

  choose-missing :
      (name : String) (jobs : Dict String JobConfig)
      → lookup name jobs ≡ none
      → choose (some name) jobs ≡ err job_not_found
  choose-missing name jobs q = ground (arith, q)

  choose-there :
      (name : String) (jobs : Dict String JobConfig) (job : JobConfig)
      → lookup name jobs ≡ some job
      → choose (some name) jobs ≡ ok job
  choose-there name jobs job q = ground (arith, q)

  module _ (d : RawConfig) (h : IsFileOfJobs d) (u : Distinct (keys d)) where
    jobs_of : Dict String JobConfig
    jobs_of = (parse_jobs t d []).0

    parses : parse_jobs t d [] ≡ (jobs_of, none)
    unfolding jobs_of
    parses = ap (λ (r : Option Error). (jobs_of, r)) (parse_jobs-lookup d [] h u).0

    job_there :
        (name : String) (s : Option (Dict String Section))
        → lookup name d ≡ some s
        → (job : JobConfig) × (construct_from_dict t name s ≡ ok job)
          × (lookup name jobs_of ≡ some job)
    unfolding jobs_of
    job_there name s q =
        let (job, r) = file-ok d name s h q in
        (
          job,
          r,
          (parse_jobs-lookup d [] h u).1 name
              ∙ ap (λ o. or_else (job_for name o) (lookup name [])) q
              ∙ ap (λ o. or_else (job_of o) (lookup name [])) r,
        )

    job_missing : (name : String) → lookup name d ≡ none → lookup name jobs_of ≡ none
    unfolding jobs_of lookup
    job_missing name q =
        (parse_jobs-lookup d [] h u).1 name ∙ ap (λ o. or_else (job_for name o) (lookup name [])) q

    jobs-cons :
        (x : String × Option (Dict String Section)) (r : RawConfig) → d ≡ x ∷ r → jobs_of ≢ []
    jobs-cons (n, s) r e q =
        let (job, p, l) = job_there n s (ap (lookup n) e ∙ lookup-head n s r) in
        absurd (unfold lookup in ground (arith, sym (ap (lookup n) q) ∙ l))

    jobs-non_empty : (r : RawConfig) → d ≡ r → d ≢ [] → jobs_of ≢ []
    jobs-non_empty [] e n = absurd (n e)
    jobs-non_empty (x ∷ r) e n = jobs-cons x r e

  -- In a file of jobs, each with its own name, with the required sections, and without any unknown
  -- section or one of another type, whichever job is asked for first, a job that is asked for by
  -- name is the one that its sections make, and any other name is reported as not found.
  pub get_job_config_lem :
      (d : RawConfig) (first name : String)
      → IsFileOfJobs d
      → Distinct (keys d)
      → d ≢ []
      → let c = (get_job_config t (some first) (new (some d))).0 in
        (lookup name d ≡ none → (get_job_config t (some name) c).1 ≡ err job_not_found)
        × ((s : Option (Dict String Section))
            → lookup name d ≡ some s
            → (job : JobConfig) × (construct_from_dict t name s ≡ ok job)
              × ((get_job_config t (some name) c).1 ≡ ok job))
  get_job_config_lem d first name h u n = (
    λ q. answered ∙ choose-missing name (jobs_of d h u) (job_missing d h u name q),
    λ s q.
        let (job, r, l) = job_there d h u name s q in
        (job, r, answered ∙ choose-there name (jobs_of d h u) job l),
  )
    where
      answered :
          (get_job_config t (some name) (get_job_config t (some first) (new (some d))).0).1
          ≡ choose (some name) (jobs_of d h u)
      answered =
          ap (λ r. (get_job_config t (some name) r.0).1)
            (get_job_config-first d (jobs_of d h u) (some first) (parses d h u)
              (jobs-non_empty d h u d refl n))
          ∙ ap (λ r. r.1) (get_job_config-again d (jobs_of d h u) (some name))
