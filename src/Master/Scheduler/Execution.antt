-- ===== src/Master/Scheduler/Execution.antt =====
-- What becomes of a subjob that is taken from the queue, and of the executor that it was for.
use cluster_runner_jie.Prelude.{
  ℕ, suc, ◌+◌, ◌≡◌, ◌≢◌, ◌⊎◌, ◌≤◌, ◌<◌, inl, inr, ap, ◌∙◌, ==_iff, refl, true, false, not, ◌&&◌,
  none, some, List, [], ◌∷◌, ◌++◌, length, ◌==◌, arith, if◌then◌else◌,
}
use cluster_runner_jie.Prelude.Int.{pos, ◌+ℤ◌}
use cluster_runner_jie.Prelude.Dict.{lookup, lookup-insert, ℕ_eq}
use cluster_runner_jie.Errors.{exception, ok, err}
use cluster_runner_jie.Util.Queue.{Queue}
use cluster_runner_jie.Util.Counter.{decrement, change_current_value}
use cluster_runner_jie.Master.Subjob.{Subjob, mark_in_progress}
use cluster_runner_jie.Master.Build.{is_canceled}
use cluster_runner_jie.Master.Slave.{
  Slave, Reply, answered, unreachable, start_subjob, free_executor, teardown,
}
use cluster_runner_jie.Master.Scheduler.{
  Scheduler, Replies, deallocate, free_slave_executor, send, execute_next_subjob_or_free_executor,
  with_unstarted, is_in, remove_slave, needs_more_slaves,
}

-- The slave uses `k` executors.
abbrev pub Uses : ℕ → Slave → Type 0
Uses k sl = (sl.num_executors_in_use.step ≡ pos 1) × (sl.num_executors_in_use.current ≡ pos k)

abbrev pub using : ℕ → Slave → Slave
using k sl = record sl { num_executors_in_use = record sl.num_executors_in_use { current = pos k } }

pub free_executor_lem :
    (k : ℕ) (sl : Slave)
    → (Uses (suc k) sl → free_executor sl ≡ (using k sl, ok (pos k)))
      × (Uses 0 sl → (free_executor sl).1 ≡ err exception)
unfolding free_executor decrement change_current_value ◌+ℤ◌
free_executor_lem k sl = (λ u. ground arith, λ u. ground arith)

deallocate-build :
    (r : Reply) (sl : Slave) (st : Scheduler) → (deallocate r sl st).scheduler.build ≡ st.build
unfolding deallocate
deallocate-build r sl st = ground arith

free-build :
    (r : Reply) (sl : Slave) (st : Scheduler)
    → (free_slave_executor r sl st).scheduler.build ≡ st.build
unfolding free_slave_executor
free-build r sl st = ground (arith, deallocate-build r (free_executor sl).0 st)

is_in-middle : (i : ℕ) (before after : List ℕ) → is_in i (before ++ i ∷ after) ≡ true
is_in-middle i [] after = ground (arith, ==_iff i i)
is_in-middle i (x ∷ before) after = ground (arith, is_in-middle i before after)

remove_slave-middle :
    (i : ℕ) (before after : List ℕ)
    → is_in i before ≡ false
    → remove_slave i (before ++ i ∷ after) ≡ before ++ after
unfolding remove_slave
remove_slave-middle i [] after n = ground (arith, ==_iff i i)
remove_slave-middle i (x ∷ before) after n = ground (arith, remove_slave-middle i before after)

-- The build has subjobs that wait, and may have more executors.
abbrev pub Lacks : Scheduler → Type 0
Lacks st =
    st.num_executors_allocated < st.max_executors
    × st.num_executors_allocated < length st.build.all_subjobs_by_id
    × is_canceled st.build ≡ false
    × (q : Queue ℕ) × st.build.unstarted_subjobs ≡ some q
    × q.items ≢ []

-- One of these is not so.
abbrev pub HasEnough : Scheduler → Type 0
HasEnough st =
    (st.max_executors ≤ st.num_executors_allocated)
    ⊎ (length st.build.all_subjobs_by_id ≤ st.num_executors_allocated)
    ⊎ (is_canceled st.build ≡ true)
    ⊎ ((q : Queue ℕ) × st.build.unstarted_subjobs ≡ some q × q.items ≡ [])

needs-Lacks : (st : Scheduler) → Lacks st → needs_more_slaves st ≡ true
unfolding needs_more_slaves
needs-Lacks st (m, n, c, q, u, i) = by_items q.items refl
  where
    by_items : (is' : List ℕ) → q.items ≡ is' → needs_more_slaves st ≡ true
    by_items [] e = absurd (i e)
    by_items (x ∷ xs) e = ground (arith, m, n, c, u, e)

needs-HasEnough : (st : Scheduler) → HasEnough st → needs_more_slaves st ≡ false
unfolding needs_more_slaves
needs-HasEnough st (inl m) = ground (arith, m)
needs-HasEnough st (inr (inl n)) = ground (arith, n)
needs-HasEnough st (inr (inr (inl c))) = ground (arith, c)
needs-HasEnough st (inr (inr (inr (q, u, i)))) = ground (arith, u, i)

module _ (r : Reply) (sl : Slave) (st : Scheduler) (before after : List ℕ)
    (allocated : st.slaves_allocated ≡ before ++ sl.slave_id ∷ after)
    (once : is_in sl.slave_id before ≡ false) where
  abbrev left : Scheduler
  left = record st { slaves_allocated = before ++ after }

  deallocate-eq : deallocate r sl st ≡ record {
    scheduler =
        if (length (before ++ after) == 0) && needs_more_slaves left
        then record left { waiting = st.waiting + 1 }
        else left;
    slave = teardown r sl;
    raises = none;
  }
  unfolding deallocate
  deallocate-eq =
      rw
        (
          allocated,
          is_in-middle sl.slave_id before after,
          remove_slave-middle sl.slave_id before after once,
        )
        refl

  waits_again :
      before ++ after ≡ [] → Lacks st → (deallocate r sl st).scheduler.waiting ≡ st.waiting + 1
  waits_again e h =
      ap (λ x. x.scheduler.waiting) deallocate-eq
      ∙ rw (ap (λ l. length l == 0) e, needs-Lacks left h) refl

  waits_no_more :
      before ++ after ≢ [] ⊎ HasEnough st → (deallocate r sl st).scheduler.waiting ≡ st.waiting
  waits_no_more (inl n) =
      ap (λ x. x.scheduler.waiting) deallocate-eq ∙ by_list (before ++ after) refl
    where
      by_list :
          (l : List ℕ)
          → before ++ after ≡ l
          → (if (length (before ++ after) == 0) && needs_more_slaves left
              then record left { waiting = st.waiting + 1 }
              else left).waiting
            ≡ st.waiting
      by_list [] e = absurd (n e)
      by_list (x ∷ l) e = rw (ap (λ l. length l == 0) e) (ground arith)
  waits_no_more (inr h) =
      ap (λ x. x.scheduler.waiting) deallocate-eq ∙ rw (needs-HasEnough left h) (ground arith)

  leaves :
      ((deallocate r sl st).scheduler.slaves_allocated ≡ before ++ after)
      × ((deallocate r sl st).scheduler.build ≡ st.build)
      × ((deallocate r sl st).raises ≡ none)
      × (sl.is_alive ≡ true → r ≡ unreachable → (deallocate r sl st).slave.is_alive ≡ false)
      × ((sl.is_alive ≡ false) ⊎ (r ≢ unreachable) → (deallocate r sl st).slave ≡ sl)
  unfolding teardown
  leaves = (
    ap (λ x. x.scheduler.slaves_allocated) deallocate-eq ∙ ground arith,
    ap (λ x. x.scheduler.build) deallocate-eq ∙ ground arith,
    ap (λ x. x.raises) deallocate-eq,
    λ l u. ap (λ x. x.slave.is_alive) deallocate-eq ∙ ground (arith, l, u),
    λ h. ap (λ x. x.slave) deallocate-eq ∙ ground (arith, h),
  )

free_last :
    (r : Reply) (sl : Slave) (st : Scheduler)
    → Uses 1 sl
    → free_slave_executor r sl st ≡ deallocate r (using 0 sl) st
unfolding free_slave_executor
free_last r sl st u = rw ((free_executor_lem 0 sl).0 u) refl

-- A slave that frees its last executor leaves the build that it is allocated to: its id is taken
-- from those allocated, nothing is raised, and it is found dead if it does not answer the teardown
-- (its count of executors is 0 then, and the rest of it as before, if it answers or was dead). If it
-- was the last one, the build waits for slaves once more if it has subjobs that wait and may have
-- more executors; otherwise it does not. For a slave that has left the build before, or that frees
-- another executor, only its count changes. A slave that has none in use makes the call raise.
pub free_slave_executor_lem :
    (r : Reply) (k : ℕ) (sl : Slave) (st : Scheduler) (before after : List ℕ)
    → let free = free_slave_executor r sl st in
      (Uses 1 sl
        → st.slaves_allocated ≡ before ++ sl.slave_id ∷ after
        → is_in sl.slave_id before ≡ false
        → ((free.scheduler.slaves_allocated ≡ before ++ after)
            × (free.scheduler.build ≡ st.build)
            × (free.raises ≡ none)
            × (sl.is_alive ≡ true → r ≡ unreachable → free.slave.is_alive ≡ false)
            × ((sl.is_alive ≡ false) ⊎ (r ≢ unreachable) → free.slave ≡ using 0 sl))
          × (before ++ after ≡ [] → Lacks st → free.scheduler.waiting ≡ st.waiting + 1)
          × (before ++ after ≢ [] ⊎ HasEnough st → free.scheduler.waiting ≡ st.waiting))
      × (Uses 1 sl
          → is_in sl.slave_id st.slaves_allocated ≡ false
          → (free.slave ≡ using 0 sl) × (free.scheduler ≡ st))
      × (Uses (suc (suc k)) sl → (free.slave ≡ using (suc k) sl) × (free.scheduler ≡ st))
      × (Uses 0 sl → free.raises ≡ some exception)
unfolding free_slave_executor deallocate
free_slave_executor_lem r k sl st before after = (
  (λ u a n. rw (free_last r sl st u) (
    leaves r (using 0 sl) st before after a n,
    waits_again r (using 0 sl) st before after a n,
    waits_no_more r (using 0 sl) st before after a n,
  )),
  (λ u h. rw ((free_executor_lem 0 sl).0 u, h) (refl, refl)),
  (λ u. rw ((free_executor_lem (suc k) sl).0 u) (refl, refl)),
  (λ u. ground (arith, (free_executor_lem 0 sl).1 u)),
)

-- For a build that is not canceled and has the first subjob of its queue: if the slave lives, is
-- not shut down and takes the subjob, it has left the queue and is in progress on the slave.
-- Otherwise it is back at the queue's end, and no subjob of the build has changed.
pub execute_next_lem :
    (r : Replies) (sl : Slave) (st : Scheduler) (q : Queue ℕ) (i : ℕ) (is' : List ℕ) (s : Subjob)
    → is_canceled st.build ≡ false
    → st.build.unstarted_subjobs ≡ some q
    → q.items ≡ i ∷ is'
    → lookup i st.build.all_subjobs_by_id ≡ some s
    → let step = execute_next_subjob_or_free_executor r sl st in
      let b = step.scheduler.build in
      ((sl.is_alive && not sl.is_in_shutdown_mode) ≡ true
        → r.start ≡ answered
        → (step.slave ≡ sl)
          × (step.raises ≡ none)
          × (b.unstarted_subjobs ≡ some (record q { items = is' }))
          × (lookup i b.all_subjobs_by_id ≡ some (mark_in_progress sl.slave_id s)))
      × ((((sl.is_alive && not sl.is_in_shutdown_mode) ≡ false) ⊎ (r.start ≢ answered))
          → (b.unstarted_subjobs ≡ some (record q { items = is' ++ i ∷ [] }))
            × (b.all_subjobs_by_id ≡ st.build.all_subjobs_by_id))
unfolding execute_next_subjob_or_free_executor send start_subjob
execute_next_lem r sl st q i is' s live has first found = (
  (λ able answer.
      ground
        (arith, lookup-insert i i (mark_in_progress sl.slave_id s) st.build.all_subjobs_by_id)),
  (λ unable. ground (
    arith,
    free-build r.tear_down sl (with_unstarted (some (record q { items = is' ++ i ∷ [] })) st),
  )),
)
