-- ===== src/Master/Build/Prepared.antt =====
-- A preparation that nothing disturbs.
use cluster_runner_jie.Prelude.{
  ℕ, ◌-◌, ◌≡◌, refl, ◌∙◌, true, false, none, some, List, [], ◌∷◌, arith, length, map,
}
use cluster_runner_jie.Errors.{ok}
use cluster_runner_jie.Util.Queue
use cluster_runner_jie.Util.Queue.{Queue}
use cluster_runner_jie.Master.Subjob.{Subjob}
use cluster_runner_jie.Master.Fsm.{queued, preparing, prepared, finish_prepare}
use cluster_runner_jie.Master.Fsm.Fysom.{Fysom}
use cluster_runner_jie.Master.Fsm.Trigger.{diagram, after_trigger}
use cluster_runner_jie.Master.Build.{
  Build, Preparation, prepare, trigger_at, fill_queues, on_enter_preparing_state, interrupt_all,
  prepare_subjobs, machine, on_leave_state, record_state_timestamp,
}
use cluster_runner_jie.Master.Build.States.{trigger_at-outcome, arrive, moved, enter}
use cluster_runner_jie.Master.Build.Preparing.{
  prepare_first, trigger_queued, started, entering, spent,
}

-- The build after START_PREPARE, before its callback for PREPARING is over, with its new subjobs.
module _ (fysom : Fysom) (p : Preparation) (subjobs : List Subjob) (b : Build) (start : ℕ)
    (has : b.has_project_type ≡ true) (fresh : b.preparation_coin.is_spent ≡ false)
    (in_queue : b.state ≡ queued) (quiet : p.meanwhile ≡ []) (found : p.subjobs ≡ ok subjobs)
    (queued_at : b.transition_timestamps queued ≡ some start)
    (is_new : b.transition_timestamps preparing ≡ none) where
  abbrev at_work : Build
  at_work = fill_queues subjobs (started fysom p (spent fysom b))

  at_work-fields :
      (at_work.state ≡ preparing)
      × (at_work.transition_timestamps ≡ b.transition_timestamps)
      × (at_work.observed ≡ (queued, p.started_at - start) ∷ b.observed)
      × (at_work.unstarted_subjobs
          ≡ some (record { maxsize = length subjobs; items = map (λ s. s.subjob_id) subjobs }))
      × (at_work.finished_subjobs ≡ some (Queue.new (length subjobs)))
  unfolding fill_queues started spent on_leave_state
  at_work-fields = ground arith

  entered :
      on_enter_preparing_state fysom p (started fysom p (spent fysom b))
      ≡ (trigger_at fysom p.prepared_at finish_prepare none at_work, none)
  unfolding on_enter_preparing_state interrupt_all prepare_subjobs
  entered = rw (quiet, found) refl

  left :
      trigger_at fysom p.prepared_at finish_prepare none at_work
      ≡ moved p.prepared_at none prepared at_work
  unfolding arrive diagram
  left =
      trigger_at-outcome fysom p.prepared_at finish_prepare none at_work ∙ rw at_work-fields.0 refl

  -- A build that is queued and not stopped meanwhile comes out PREPARED with its subjobs in order in
  -- the queue of those to start, and with room for all of them among the finished ones. The time at
  -- which PREPARING is recorded is the end of the preparation, so that the time spent in that state
  -- is never observed.
  pub prepare_undisturbed :
      let r = prepare fysom p b in
      (r.1 ≡ none)
      × (r.0.state ≡ prepared)
      × (r.0.unstarted_subjobs
          ≡ some (record { maxsize = length subjobs; items = map (λ s. s.subjob_id) subjobs }))
      × (r.0.finished_subjobs ≡ some (Queue.new (length subjobs)))
      × (r.0.transition_timestamps preparing ≡ some p.recorded_at)
      × (r.0.transition_timestamps prepared ≡ some p.prepared_at)
      × (r.0.observed ≡ (queued, p.started_at - start) ∷ b.observed)
  unfolding moved enter after_trigger entering machine on_leave_state record_state_timestamp spent
  prepare_undisturbed =
      rw
        (
          prepare_first fysom p b has fresh,
          trigger_queued fysom p (spent fysom b) in_queue,
          entered,
          left,
        )
        (let f = at_work-fields in ground (arith, f))
