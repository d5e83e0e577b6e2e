-- ===== src/Master/Build/Updates.antt =====
-- app/master/build.py: pages of subjobs, and updates by clients.
use cluster_runner_jie.Prelude.{
  ℕ, ◌≡◌, ◌≢◌, refl, sym, ap, ◌∙◌, inl, inr, Bool, true, false, ◌&&◌, ◌||◌, Option, String, List,
  [], ◌∷◌, length, take, drop, ◌-◌, arith, Bool-cases, if◌then◌else◌,
}
use cluster_runner_jie.Prelude.Int.{ℤ}
use cluster_runner_jie.Prelude.Dict.{values, String_eq}
use cluster_runner_jie.Util.Pagination.{get_paginated_indices}
use cluster_runner_jie.Master.Subjob.{Subjob}
use cluster_runner_jie.Master.Fsm.{finished, error, canceled}
use cluster_runner_jie.Master.Fsm.Fysom.{Fysom, state_eq}
use cluster_runner_jie.Master.Build.{Build, cancel, is_stopped}
use cluster_runner_jie.Master.Build.Canceling.{cancel_lem}
use cluster_runner_jie.Master.Build.Keeping.{cancel-Keeps}

-- `islice` of the dictionary's keys, and their subjobs.
unfoldable pub get_subjobs : Option ℤ → Option ℤ → Build → List Subjob
unfolding get_paginated_indices
get_subjobs offset limit b =
    let (start, end) = get_paginated_indices offset limit (length b.all_subjobs_by_id) in
    take (end - start) (drop start (values b.all_subjobs_by_id))

abbrev is_status_canceled : String × String → Bool
is_status_canceled p = String_eq.beq p.0 "status" && String_eq.beq p.1 "canceled"

-- Whether there is no message about a key or a value; the message is left out.
unfoldable pub validate_update_params : List (String × String) → Bool
validate_update_params [] = true
validate_update_params (p ∷ ps) = is_status_canceled p && validate_update_params ps

module _ (fysom : Fysom) (now : ℕ) where
  unfoldable pub update_loop : List (String × String) → Bool → Build → Build × Bool
  unfolding cancel
  update_loop [] success b = (b, success)
  update_loop (p ∷ ps) success b = elim (is_status_canceled p) [
    | true ↦ update_loop ps true (cancel fysom now b)
    | false ↦ update_loop ps success b
  ]

  unfoldable pub update_state : List (String × String) → Build → Build × Bool
  unfolding update_loop
  update_state params b = update_loop params false b

  -- `ClusterMaster.handle_request_to_update_build`, for a build that is found.
  unfoldable pub update_build : List (String × String) → Build → Build × Bool
  unfolding validate_update_params update_state
  update_build params b =
      if validate_update_params params then update_state params b else (b, false)

  abbrev is_settled : Build → Bool
  is_settled b = state_eq b.state finished || is_stopped b

  update_loop-settled :
      (ps : List (String × String)) (success : Bool) (b : Build)
      → b.has_project_type ≡ true
      → is_settled b ≡ true
      → validate_update_params ps ≡ true
      → (update_loop ps success b).0 ≡ b
  unfolding update_loop validate_update_params
  update_loop-settled [] success b has h v = refl
  update_loop-settled (p ∷ ps) success b has h v = elim (Bool-cases (is_status_canceled p)) [
    | inl e ↦
        rw (update_loop, e)
          (ap (λ c. (update_loop ps true c).0) ((cancel_lem fysom now b has).0 h)
            ∙ update_loop-settled ps true b has h (sym (rw e refl) ∙ v))
    | inr e ↦ absurd (ground arith)
  ]

  update_loop-success : (ps : List (String × String)) (b : Build) → (update_loop ps true b).1 ≡ true
  unfolding update_loop
  update_loop-success [] b = refl
  update_loop-success (p ∷ ps) b = elim (Bool-cases (is_status_canceled p)) [
    | inl e ↦ rw (update_loop, e) (update_loop-success ps (cancel fysom now b))
    | inr e ↦ rw (update_loop, e) (update_loop-success ps b)
  ]

  cancel-settled : (b : Build) → b.has_project_type ≡ true → is_settled (cancel fysom now b) ≡ true
  cancel-settled b has = elim (Bool-cases (is_settled b)) [
    | inl h ↦ ap is_settled ((cancel_lem fysom now b has).0 h) ∙ h
    | inr h ↦
        ap (λ s. state_eq s finished || (state_eq s error || state_eq s canceled))
          ((cancel_lem fysom now b has).1 h).0
  ]

  update_first :
      (ps : List (String × String)) (p : String × String) (b : Build)
      → validate_update_params (p ∷ ps) ≡ true
      → (update_state (p ∷ ps) b ≡ update_loop ps true (cancel fysom now b))
        × (validate_update_params ps ≡ true)
  unfolding update_state update_loop validate_update_params
  update_first ps p b v = elim (Bool-cases (is_status_canceled p)) [
    | inl e ↦ (rw (update_loop, e) refl, sym (rw e refl) ∙ v)
    | inr e ↦ absurd (ground arith)
  ]

  update_loop-false :
      (ps : List (String × String)) (b : Build)
      → (update_loop ps false b).1 ≡ false
      → (update_loop ps false b).0 ≡ b
  unfolding update_loop
  update_loop-false [] b e = refl
  update_loop-false (p ∷ ps) b e = elim (Bool-cases (is_status_canceled p)) [
    | inl q ↦
        let step : update_loop (p ∷ ps) false b ≡ update_loop ps true (cancel fysom now b) =
          rw (update_loop, q) refl in
        absurd
          (false_or_true (sym e ∙ ap (λ r. r.1) step ∙ update_loop-success ps (cancel fysom now b)))
    | inr q ↦
        let step : update_loop (p ∷ ps) false b ≡ update_loop ps false b =
          rw (update_loop, q) refl in
        ap (λ r. r.0) step ∙ update_loop-false ps b (sym (ap (λ r. r.1) step) ∙ e)
  ]
    where
      false_or_true : ◌≢◌ {A = Bool} false true
      false_or_true q = absurd (ground arith)

  -- An update that does not succeed changes nothing.
  pub update_build-false :
      (ps : List (String × String)) (b : Build)
      → (update_build ps b).1 ≡ false
      → (update_build ps b).0 ≡ b
  unfolding update_build
  update_build-false ps b e = elim (Bool-cases (validate_update_params ps)) [
    | inl v ↦
        let step : update_build ps b ≡ update_state ps b = rw v refl in
        ap (λ r. r.0) step
        ∙ unfold update_state in update_loop-false ps b (sym (ap (λ r. r.1) step) ∙ e)
    | inr v ↦ rw v refl
  ]

  -- A client's update that names anything but the status CANCELED is refused and changes nothing.
  -- An update that does name it succeeds, and the build is finished or stopped then.
  pub update_build_lem :
      (ps : List (String × String)) (p : String × String) (b : Build)
      → b.has_project_type ≡ true
      → (validate_update_params (p ∷ ps) ≡ false → update_build (p ∷ ps) b ≡ (b, false))
        × (validate_update_params (p ∷ ps) ≡ true
            → ((update_build (p ∷ ps) b).1 ≡ true)
              × (is_settled (update_build (p ∷ ps) b).0 ≡ true))
  unfolding update_build
  update_build_lem ps p b has =
      ((λ v. rw (update_build, v) refl), (λ v. rw (update_build, v) (accepted v)))
    where
      accepted :
          validate_update_params (p ∷ ps) ≡ true
          → ((update_state (p ∷ ps) b).1 ≡ true) × (is_settled (update_state (p ∷ ps) b).0 ≡ true)
      accepted v =
          let c = cancel fysom now b in
          let step = update_first ps p b v in
          let same =
            update_loop-settled ps true c ((cancel-Keeps fysom now b).has_project_type ∙ has)
              (cancel-settled b has) step.1 in
          (
            ap (λ r. r.1) step.0 ∙ update_loop-success ps c,
            ap (λ r. is_settled r.0) step.0 ∙ ap is_settled same ∙ cancel-settled b has,
          )
