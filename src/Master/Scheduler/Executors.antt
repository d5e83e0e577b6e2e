-- ===== src/Master/Scheduler/Executors.antt =====
-- How many executors are used when a slave begins with the subjobs of a build.
use cluster_runner_jie.Prelude.{
  ℕ, zero, suc, ◌+◌, ◌-◌, ◌≤◌, ◌≡◌, inl, inr, refl, ap, subst, ◌∙◌, min, Bool, true, false, ◌||◌,
  Option, none, some, [], ◌∷◌, ◌++◌, leb, arith, Bool-cases, Option-cases,
}
use cluster_runner_jie.Prelude.Int.{pos, ◌+ℤ◌}
use cluster_runner_jie.Prelude.Dict.{lookup, ℕ_eq}
use cluster_runner_jie.Master.Subjob.{Subjob}
use cluster_runner_jie.Errors.{ok}
use cluster_runner_jie.Util.Queue
use cluster_runner_jie.Util.Queue.{Queue}
use cluster_runner_jie.Util.Counter.{increment, change_current_value}
use cluster_runner_jie.Master.Build.{Build, is_canceled}
use cluster_runner_jie.Master.Slave.{Slave, Reply, start_subjob, claim_executor, teardown}
use cluster_runner_jie.Master.Scheduler.{
  Scheduler, Step, Replies, deallocate, free_slave_executor, send,
  execute_next_subjob_or_free_executor, begin_executions, begin_subjob_executions_on_slave,
  with_unstarted, claim_and_execute, take_next, after_get, in_progress_on,
}
use cluster_runner_jie.Master.Scheduler.Execution.{Uses, using, free_executor_lem}

abbrev pub has_queue : Option (Queue ℕ) → Bool
has_queue none = false
has_queue (some q) = true

-- What one round keeps of the scheduler and the slave, which uses at most `k` executors then.
pub record IsRound (k : ℕ) (st : Scheduler) (sl : Slave) (step : Step) : Type 0 where
  pub raises : step.raises ≡ none
  pub num_executors_in_use : step.scheduler.num_executors_in_use ≡ st.num_executors_in_use
  pub max_executors : step.scheduler.max_executors ≡ st.max_executors
  pub max_executors_per_slave : step.scheduler.max_executors_per_slave ≡ st.max_executors_per_slave
  pub queue : has_queue step.scheduler.build.unstarted_subjobs ≡ true
  pub num_executors : step.slave.num_executors ≡ sl.num_executors
  pub uses : (j : ℕ) × (j ≤ k) × Uses j step.slave

teardown-Uses :
    (r : Reply) (j : ℕ) (sl : Slave)
    → Uses j sl
    → Uses j (teardown r sl) × ((teardown r sl).num_executors ≡ sl.num_executors)
unfolding teardown
teardown-Uses r j sl u = ground arith

deallocate-IsRound :
    (r : Reply) (k : ℕ) (sl : Slave) (st : Scheduler)
    → Uses k sl
    → has_queue st.build.unstarted_subjobs ≡ true
    → IsRound k st sl (deallocate r sl st)
unfolding deallocate
deallocate-IsRound r k sl st u h = record {
  raises = ground arith;
  num_executors_in_use = ground arith;
  max_executors = ground arith;
  max_executors_per_slave = ground arith;
  queue = ground arith;
  num_executors = ground (arith, teardown-Uses r k sl u);
  uses = (k, omega arith, ground (arith, teardown-Uses r k sl u));
}

still :
    (k : ℕ) (st : Scheduler) (sl : Slave)
    → Uses k sl
    → has_queue st.build.unstarted_subjobs ≡ true
    → IsRound k st sl (record { scheduler = st; slave = sl; raises = none })
still k st sl u h = record {
  raises = refl;
  num_executors_in_use = refl;
  max_executors = refl;
  max_executors_per_slave = refl;
  queue = h;
  num_executors = refl;
  uses = (k, omega arith, u);
}

-- A round that ends a scheduler and a slave which differ from these only in what it does not keep.
widen :
    (j k : ℕ) (st st' : Scheduler) (sl sl' : Slave) (step : Step)
    → j ≤ k
    → st'.num_executors_in_use ≡ st.num_executors_in_use
    → st'.max_executors ≡ st.max_executors
    → st'.max_executors_per_slave ≡ st.max_executors_per_slave
    → sl'.num_executors ≡ sl.num_executors
    → IsRound j st' sl' step
    → IsRound k st sl step
widen j k st st' sl sl' step le a b c d r = record {
  raises = r.raises;
  num_executors_in_use = r.num_executors_in_use ∙ a;
  max_executors = r.max_executors ∙ b;
  max_executors_per_slave = r.max_executors_per_slave ∙ c;
  queue = r.queue;
  num_executors = r.num_executors ∙ d;
  uses = (r.uses.0, omega (arith, r.uses.1), r.uses.2);
}

free-IsRound :
    (r : Reply) (k : ℕ) (sl : Slave) (st : Scheduler)
    → Uses (suc k) sl
    → has_queue st.build.unstarted_subjobs ≡ true
    → IsRound (suc k) st sl (free_slave_executor r sl st)
unfolding free_slave_executor
free-IsRound r zero sl st u h = rw ((free_executor_lem 0 sl).0 u) (
    widen 0 1 st st sl (using 0 sl) _ (omega arith) refl refl refl refl
      (deallocate-IsRound r 0 (using 0 sl) st (u.0, refl) h))
free-IsRound r (suc k) sl st u h = rw ((free_executor_lem (suc k) sl).0 u) (
    widen (suc k) (suc (suc k)) st st sl (using (suc k) sl) _ (omega arith) refl refl refl refl
      (still (suc k) st (using (suc k) sl) (u.0, refl) h))

in_progress-unstarted :
    (i slave : ℕ) (o : Option Subjob) (b : Build)
    → (in_progress_on i slave o b).unstarted_subjobs ≡ b.unstarted_subjobs
in_progress-unstarted i slave none b = refl
in_progress-unstarted i slave (some s) b = refl

send-IsRound :
    (r : Replies) (i k : ℕ) (q : Queue ℕ) (sl : Slave) (st : Scheduler)
    → Uses (suc k) sl
    → IsRound (suc k) st sl (send r i q sl st)
unfolding send
send-IsRound r i k q sl st u = elim (Option-cases (start_subjob r.start sl)) [
  | inl h ↦
      rw (send, h)
        (record {
          raises = refl;
          num_executors_in_use = refl;
          max_executors = refl;
          max_executors_per_slave = refl;
          queue = ap has_queue (
              in_progress-unstarted i sl.slave_id (lookup i st.build.all_subjobs_by_id)
                (record st.build { unstarted_subjobs = some q }));
          num_executors = refl;
          uses = (suc k, omega arith, u);
        })
  | inr (e, h) ↦
      rw (send, h)
        (widen (suc k) (suc k) st
          (with_unstarted (some (record q { items = q.items ++ i ∷ [] })) st) sl sl _ (omega arith)
          refl refl refl refl
          (free-IsRound r.tear_down k sl
            (with_unstarted (some (record q { items = q.items ++ i ∷ [] })) st) u refl))
]

execute-IsRound :
    (r : Replies) (k : ℕ) (sl : Slave) (st : Scheduler)
    → Uses (suc k) sl
    → has_queue st.build.unstarted_subjobs ≡ true
    → IsRound (suc k) st sl (execute_next_subjob_or_free_executor r sl st)
unfolding execute_next_subjob_or_free_executor
execute-IsRound r k sl st u h = elim (Bool-cases (is_canceled st.build)) [
  | inl c ↦ rw c (free-IsRound r.tear_down k sl st u h)
  | inr c ↦ rw c (taken st.build.unstarted_subjobs h)
]
  where
    got : (o : Option (ℕ × Queue ℕ)) → IsRound (suc k) st sl (after_get r sl st o)
    got none = free-IsRound r.tear_down k sl st u h
    got (some (i, q)) = send-IsRound r i k q sl st u

    taken :
        (o : Option (Queue ℕ)) → has_queue o ≡ true → IsRound (suc k) st sl (take_next r sl st o)
    taken none h' = absurd (ground arith)
    taken (some q) h' = got (Queue.get q)

-- A slave that uses at most `k` executors, fewer than it has, claims one more.
claim_executor_lem :
    (k : ℕ) (sl : Slave)
    → Uses k sl
    → suc k ≤ sl.num_executors
    → claim_executor sl ≡ (using (suc k) sl, ok (pos (suc k)))
unfolding claim_executor increment change_current_value ◌+ℤ◌
claim_executor_lem k sl u h = ground arith

claim-IsRound :
    (r : Replies) (k : ℕ) (sl : Slave) (st : Scheduler)
    → Uses k sl
    → suc k ≤ sl.num_executors
    → has_queue st.build.unstarted_subjobs ≡ true
    → IsRound
        (suc k)
        (record st { num_executors_in_use = st.num_executors_in_use + 1 })
        sl
        (claim_and_execute r st (claim_executor sl))
claim-IsRound r k sl st u le h =
    let st' : Scheduler = record st { num_executors_in_use = st.num_executors_in_use + 1 } in
    rw (claim_executor_lem k sl u le) (
      widen (suc k) (suc k) st' st' sl (using (suc k) sl) _ (omega arith) refl refl refl refl
        (execute-IsRound r k (using (suc k) sl) st' (u.0, refl) h))

-- What beginning comes to, from a scheduler and a slave.
pub record HasBegun (room : ℕ) (st : Scheduler) (sl : Slave) (step : Step) : Type 0 where
  pub raises : step.raises ≡ none
  pub in_total : step.scheduler.num_executors_in_use ≤ st.max_executors
  pub claimed : step.scheduler.num_executors_in_use ≤ st.num_executors_in_use + room
  pub uses : (j : ℕ) × (j ≤ sl.num_executors) × Uses j step.slave

begin_executions-HasBegun :
    (r : ℕ → Replies) (n count k : ℕ) (sl : Slave) (st : Scheduler)
    → Uses k sl
    → k ≤ count
    → count + n ≡ sl.num_executors
    → has_queue st.build.unstarted_subjobs ≡ true
    → st.num_executors_in_use ≤ st.max_executors
    → HasBegun (min n (st.max_executors_per_slave - count)) st sl (begin_executions r n count sl st)
unfolding begin_executions
begin_executions-HasBegun r zero count k sl st u le all h max = record {
  raises = refl;
  in_total = max;
  claimed = omega arith;
  uses = (k, omega arith, u);
}
begin_executions-HasBegun r (suc n) count k sl st u le all h max =
    elim (Bool-cases
      (leb st.max_executors st.num_executors_in_use || leb st.max_executors_per_slave count)) [
        | inl over ↦
            rw (begin_executions, over)
              (record {
                raises = refl;
                in_total = max;
                claimed = omega arith;
                uses = (k, omega arith, u);
              })
        | inr more ↦
            let room : suc st.num_executors_in_use ≤ st.max_executors = ground arith in
            let room' : suc count ≤ st.max_executors_per_slave = ground arith in
            let step = claim_and_execute (r count) st (claim_executor sl) in
            let round = claim-IsRound (r count) k sl st u (omega arith) h in
            let rest =
              begin_executions-HasBegun r n (count + 1) round.uses.0 step.slave step.scheduler
                round.uses.2 (omega (arith, round.uses.1)) (omega (arith, round.num_executors))
                round.queue
                (omega (arith, room, round.num_executors_in_use, round.max_executors)) in
            rw (begin_executions, more, round.raises)
              (record {
                raises = rest.raises;
                in_total = omega (arith, rest.in_total, round.max_executors);
                claimed = omega (
                  arith, room', rest.claimed, round.num_executors_in_use,
                  round.max_executors_per_slave,
                );
                uses = (rest.uses.0, omega (arith, rest.uses.1, round.num_executors), rest.uses.2);
              })
      ]

-- A slave without any executor in use that begins with a build that has its queue and whose
-- executors are within their maximum: no call raises, the executors that are counted stay within the build's maximum and grow
-- by as many at most as the slave has and as the job allows for a slave, and the slave uses no more
-- than it has.
pub begin_subjob_executions_lem :
    (r : ℕ → Replies) (sl : Slave) (st : Scheduler)
    → Uses 0 sl
    → has_queue st.build.unstarted_subjobs ≡ true
    → st.num_executors_in_use ≤ st.max_executors
    → HasBegun
        (min sl.num_executors st.max_executors_per_slave)
        st
        sl
        (begin_subjob_executions_on_slave r sl st)
unfolding begin_subjob_executions_on_slave
begin_subjob_executions_lem r sl st u h max =
    let whole : min sl.num_executors (st.max_executors_per_slave - 0)
        ≡ min sl.num_executors st.max_executors_per_slave =
      omega arith in
    subst (λ room. HasBegun room st sl (begin_executions r sl.num_executors 0 sl st)) whole
      (begin_executions-HasBegun r sl.num_executors 0 0 sl st u (omega arith) (omega arith) h max)
