-- ===== src/Master/Build/Preparing.antt =====
-- `prepare`, with whatever other threads do to the build meanwhile.
use cluster_runner_jie.Prelude.{
  ℕ, ◌≡◌, refl, sym, ap, subst, ◌∙◌, Bool, true, false, ◌||◌, Option, none, some, String, List, [],
  ◌∷◌, arith,
}
use cluster_runner_jie.Errors.{Error, Result, ok, err}
use cluster_runner_jie.Master.Subjob.{Subjob}
use cluster_runner_jie.Master.Fsm.{
  BuildState, queued, preparing, prepared, error, canceled, cancel, start_prepare, finish_prepare,
  fail, to, same,
}
use cluster_runner_jie.Master.Fsm.Fysom.{Fysom, Machine, state_eq, goes_to, after_enter, done}
use cluster_runner_jie.Master.Fsm.Trigger.{
  trigger, after_trigger, after_fail, diagram, trigger_edge, trigger_no_edge, transition_error,
}
use cluster_runner_jie.Master.Build.{
  Build, Preparation, Interruption, cancels, fails, machine, interrupt, interrupt_all,
  prepare_subjobs, fill_queues, on_enter_preparing_state, on_leave_state, prepare, is_stopped,
}
use cluster_runner_jie.Master.Build.States.{trigger_at-state, next}
use cluster_runner_jie.Master.Build.Keeping.{trigger_at-Keeps}

-- The states of a build while its preparation runs, and when it is over.
abbrev is_underway : BuildState → Bool
is_underway s = state_eq s preparing || (state_eq s error || state_eq s canceled)

abbrev pub is_settled : BuildState → Bool
is_settled s = state_eq s prepared || (state_eq s error || state_eq s canceled)

next-underway :
    (s : BuildState)
    → is_underway s ≡ true
    → (is_underway (next s (diagram s cancel)) ≡ true)
      × (is_underway (next s (diagram s fail)) ≡ true)
      × (is_settled (next s (diagram s finish_prepare)) ≡ true)
      × (state_eq (next s (diagram s finish_prepare)) prepared ≡ state_eq s preparing)
unfolding diagram
next-underway queued h = ground arith
next-underway s h = ground arith

next-settled :
    (s : BuildState)
    → is_settled s ≡ true
    → (is_settled (next s (diagram s cancel)) ≡ true)
      × (is_settled (next s (diagram s fail)) ≡ true)
unfolding diagram
next-settled queued h = absurd (ground arith)
next-settled s h = ground arith

module _ (fysom : Fysom) where
  -- A build under preparation, for which no postbuild thread was started so far beyond `n`.
  abbrev Underway : ℕ → Build → Type 0
  Underway n b = (is_underway b.state ≡ true) × (b.postbuild_threads ≡ n)

  interrupt-Underway :
      (n : ℕ) (i : Interruption) (b : Build) → Underway n b → Underway n (interrupt fysom i b)
  unfolding interrupt
  interrupt-Underway n (cancels now) b h = (
    rw (trigger_at-state fysom now cancel none b) (next-underway b.state h.0).0,
    (trigger_at-Keeps fysom now cancel none b).postbuild_threads ∙ h.1,
  )
  interrupt-Underway n (fails now reason) b h = (
    rw (trigger_at-state fysom now fail (some reason) b) (next-underway b.state h.0).1,
    (trigger_at-Keeps fysom now fail (some reason) b).postbuild_threads ∙ h.1,
  )

  interrupt_all-Underway :
      (n : ℕ) (is' : List Interruption) (b : Build)
      → Underway n b
      → Underway n (interrupt_all fysom is' b)
  unfolding interrupt_all
  interrupt_all-Underway n [] b h = h
  interrupt_all-Underway n (i ∷ is') b h =
      interrupt_all-Underway n is' _ (interrupt-Underway n i b h)

  interrupt-settled :
      (n : ℕ) (i : Interruption) (b : Build)
      → is_settled b.state ≡ true
      → b.postbuild_threads ≡ n
      → (is_settled (interrupt fysom i b).state ≡ true)
        × ((interrupt fysom i b).postbuild_threads ≡ n)
  unfolding interrupt
  interrupt-settled n (cancels now) b h t = (
    rw (trigger_at-state fysom now cancel none b) (next-settled b.state h).0,
    (trigger_at-Keeps fysom now cancel none b).postbuild_threads ∙ t,
  )
  interrupt-settled n (fails now reason) b h t = (
    rw (trigger_at-state fysom now fail (some reason) b) (next-settled b.state h).1,
    (trigger_at-Keeps fysom now fail (some reason) b).postbuild_threads ∙ t,
  )

  -- Other threads leave a build settled that is, and start no postbuild thread of it.
  pub interrupt_all-settled :
      (n : ℕ) (is' : List Interruption) (b : Build)
      → is_settled b.state ≡ true
      → b.postbuild_threads ≡ n
      → (is_settled (interrupt_all fysom is' b).state ≡ true)
        × ((interrupt_all fysom is' b).postbuild_threads ≡ n)
  unfolding interrupt_all
  interrupt_all-settled n [] b h t = (h, t)
  interrupt_all-settled n (i ∷ is') b h t =
      let (h', t') = interrupt-settled n i b h t in interrupt_all-settled n is' _ h' t'

  pub interrupt_all-threads :
      (is' : List Interruption) (b : Build)
      → (interrupt_all fysom is' b).postbuild_threads ≡ b.postbuild_threads
  unfolding interrupt_all interrupt
  interrupt_all-threads [] b = refl
  interrupt_all-threads (cancels now ∷ is') b =
      interrupt_all-threads is' _ ∙ (trigger_at-Keeps fysom now cancel none b).postbuild_threads
  interrupt_all-threads (fails now reason ∷ is') b =
      interrupt_all-threads is' _
      ∙ (trigger_at-Keeps fysom now fail (some reason) b).postbuild_threads

  -- Where `prepare` ends without an exception the build is settled; where it raises, it is where
  -- the other threads have left it.
  abbrev pub EndsWell : ℕ → Build × Option Error → Type 0
  EndsWell n (b, none) = (is_settled b.state ≡ true) × (b.postbuild_threads ≡ n)
  EndsWell n (b, some e) = (is_underway b.state ≡ true) × (b.postbuild_threads ≡ n)

  prepare_subjobs-EndsWell :
      (n now : ℕ) (r : Result (List Subjob)) (b : Build)
      → Underway n b
      → EndsWell n (prepare_subjobs fysom now r b)
  unfolding prepare_subjobs fill_queues
  prepare_subjobs-EndsWell n now (err e) b h = h
  prepare_subjobs-EndsWell n now (ok subjobs) b h = (
    rw (trigger_at-state fysom now finish_prepare none (fill_queues subjobs b))
        (next-underway b.state h.0).2,
    (trigger_at-Keeps fysom now finish_prepare none (fill_queues subjobs b)).postbuild_threads
        ∙ h.1,
  )

  on_enter_preparing-EndsWell :
      (p : Preparation) (b : Build)
      → b.state ≡ preparing
      → EndsWell b.postbuild_threads (on_enter_preparing_state fysom p b)
  unfolding on_enter_preparing_state
  on_enter_preparing-EndsWell p b e =
      prepare_subjobs-EndsWell b.postbuild_threads p.prepared_at p.subjobs _
        (interrupt_all-Underway b.postbuild_threads p.meanwhile b (rw e refl, refl))

  unfoldable pub entering : (p : Preparation) → Option String → Machine Build
  entering p = machine p.started_at p.recorded_at (on_enter_preparing_state fysom p)

  after_enter-EndsWell :
      (n : ℕ) (p : Preparation) (src : BuildState) (r : Build × Option Error)
      → EndsWell n r
      → EndsWell n
          (after_trigger fysom (entering p) (after_enter (entering p none) src preparing r))
  unfolding entering machine after_trigger
  after_enter-EndsWell n p src (b, none) h = h
  after_enter-EndsWell n p src (b, some e) h = h

  -- START_PREPARE in the three states in which a build may be when its turn comes.
  module _ (p : Preparation) (b : Build) where
    unfoldable pub started : Build
    started = let b' = on_leave_state p.started_at b.state b in record b' { state = preparing }

    pub trigger_queued :
        b.state ≡ queued
        → trigger fysom (entering p) start_prepare none b
          ≡ after_trigger fysom (entering p) (
              after_enter
                (entering p none)
                b.state
                preparing
                (on_enter_preparing_state fysom p started))
    unfolding entering machine diagram started
    trigger_queued e =
        trigger_edge fysom (entering p) start_prepare none b (to preparing)
          (ap (λ s. diagram s start_prepare) e)
        ∙ ap (after_trigger fysom (entering p)) (ground arith)

    pub trigger_canceled :
        b.state ≡ canceled → trigger fysom (entering p) start_prepare none b ≡ (b, none)
    unfolding entering machine diagram after_trigger
    trigger_canceled e =
        trigger_edge fysom (entering p) start_prepare none b same
          (ap (λ s. diagram s start_prepare) e)

    pub trigger_error :
        b.state ≡ error → trigger fysom (entering p) start_prepare none b ≡ (b, none)
    unfolding entering machine diagram after_fail
    trigger_error e =
        trigger_no_edge fysom (entering p) start_prepare none b
          (ap (λ s. diagram s start_prepare) e)
        ∙ ap (after_fail fysom (entering p)) at_error
      where
        at_error : goes_to (entering p (some transition_error)) (to error) b ≡ (b, done)
        at_error = ground arith

  started-threads :
      (p : Preparation) (b : Build) → (started p b).postbuild_threads ≡ b.postbuild_threads
  unfolding started on_leave_state
  started-threads p b = ground arith

  trigger_prepare-EndsWell :
      (p : Preparation) (b : Build) (s : BuildState)
      → b.state ≡ s
      → (state_eq s queued || (state_eq s error || state_eq s canceled)) ≡ true
      → EndsWell b.postbuild_threads (trigger fysom (entering p) start_prepare none b)
  unfolding started
  trigger_prepare-EndsWell p b queued e h = rw (trigger_queued p b e) (
      after_enter-EndsWell b.postbuild_threads p b.state
        (on_enter_preparing_state fysom p (started p b))
        (subst (λ n. EndsWell n (on_enter_preparing_state fysom p (started p b)))
          (started-threads p b) (on_enter_preparing-EndsWell p (started p b) refl)))
  trigger_prepare-EndsWell p b canceled e h = rw (trigger_canceled p b e) (ground arith, refl)
  trigger_prepare-EndsWell p b error e h = rw (trigger_error p b e) (ground arith, refl)
  trigger_prepare-EndsWell p b s e h = absurd (ground arith)

  unfoldable pub spent : Build → Build
  spent b = record b { preparation_coin = record { is_spent = true } }

  -- For a build that has its project type and was not prepared before.
  pub prepare_first :
      (p : Preparation) (b : Build)
      → b.has_project_type ≡ true
      → b.preparation_coin.is_spent ≡ false
      → prepare fysom p b ≡ trigger fysom (entering p) start_prepare none (spent b)
  unfolding prepare entering spent
  prepare_first p b has fresh = ground arith

  pub prepare-EndsWell :
      (p : Preparation) (b : Build)
      → b.has_project_type ≡ true
      → b.preparation_coin.is_spent ≡ false
      → (state_eq b.state queued || is_stopped b) ≡ true
      → EndsWell b.postbuild_threads (prepare fysom p b)
  unfolding spent
  prepare-EndsWell p b has fresh h =
      subst (EndsWell b.postbuild_threads) (sym (prepare_first p b has fresh))
        (trigger_prepare-EndsWell p (spent b) b.state refl h)
