-- ===== src/Master/SlaveAllocator/Loop.antt =====
-- The loop of the allocator ends.
use cluster_runner_jie.Prelude.{
  ℕ, zero, suc, ◌≤◌, true, false, some, List, [], length, length-nil, ◌≡◌, ◌⊎◌, inl, inr, refl, sym,
  subst, arith, Bool-cases, Option-cases,
}
use cluster_runner_jie.Prelude.Dict.{lookup, ℕ_eq}
use cluster_runner_jie.Util.OrderedSet.Lists.{pop_back, pop_back-none, pop_back-length}
use cluster_runner_jie.Master.Fsm.Fysom.{Fysom}
use cluster_runner_jie.Master.Slave.{Slave}
use cluster_runner_jie.Master.Scheduler.{needs_more_slaves, allocate_slave}
use cluster_runner_jie.Master.SlaveAllocator.{
  Allocation, Answers, nothing, allocate_or_return, allocate_claimed, serve, slave_allocation_loop,
}

module _ (fysom : Fysom) (now : ℕ) where
  allocate_claimed-idle :
      (r : Answers) (sl : Slave) (a : Allocation)
      → needs_more_slaves a.scheduler ≡ true
      → (allocate_claimed fysom now r nothing sl a).idle_slaves ≡ a.idle_slaves
  unfolding allocate_claimed allocate_or_return allocate_slave
  allocate_claimed-idle r sl a n = ground arith

  serve-idle :
      (r : Answers) (i : ℕ) (rest : List ℕ) (a : Allocation)
      → needs_more_slaves a.scheduler ≡ true
      → (serve fysom now r i rest a).idle_slaves ≡ rest
  unfolding serve
  serve-idle r i rest a n = elim (Option-cases (lookup i a.slaves)) [
    | inl h ↦ rw (serve, h) refl
    | inr h ↦ rw (serve, h.1) (allocate_claimed-idle r h.0 (record a { idle_slaves = rest }) n)
  ]

  loop-done :
      (r : ℕ → Answers) (n : ℕ) (a : Allocation)
      → (needs_more_slaves a.scheduler ≡ false) ⊎ (a.idle_slaves ≡ [])
      → slave_allocation_loop fysom now r n a ≡ a
  unfolding slave_allocation_loop pop_back
  loop-done r zero a h = refl
  loop-done r (suc n) a (inl h) = ground arith
  loop-done r (suc n) a (inr h) = ground arith

  loop-serves :
      (r : ℕ → Answers) (n : ℕ) (a : Allocation) (i : ℕ) (rest : List ℕ)
      → needs_more_slaves a.scheduler ≡ true
      → pop_back a.idle_slaves ≡ some (i, rest)
      → slave_allocation_loop fysom now r (suc n) a
        ≡ slave_allocation_loop fysom now r n (serve fysom now (r i) i rest a)
  unfolding slave_allocation_loop
  loop-serves r n a i rest h p = ground arith

  ends :
      (r : ℕ → Answers) (n : ℕ) (a : Allocation)
      → length a.idle_slaves ≤ n
      → let b = slave_allocation_loop fysom now r n a in
        (needs_more_slaves b.scheduler ≡ false) ⊎ (b.idle_slaves ≡ [])
  unfolding slave_allocation_loop
  ends r zero a h = inr (length-nil a.idle_slaves (omega arith))
  ends r (suc n) a h = elim (Bool-cases (needs_more_slaves a.scheduler)) [
    | inr d ↦ inl (ground arith)
    | inl d ↦ elim (Option-cases (pop_back a.idle_slaves)) [
      | inl q ↦ inr (ground (arith, pop_back-none a.idle_slaves q))
      | inr q ↦
          let rest = q.0.1 in
          subst (λ b. (needs_more_slaves b.scheduler ≡ false) ⊎ (b.idle_slaves ≡ []))
            (sym (loop-serves r n a q.0.0 rest d q.1))
            (ends r n (serve fysom now (r q.0.0) q.0.0 rest a) (
              ground (
                arith,
                serve-idle (r q.0.0) q.0.0 rest a d,
                pop_back-length a.idle_slaves q.0.0 rest q.1,
              )))
    ]
  ]

  -- While no other thread does anything, the allocator looks at every idle slave once at most: after
  -- as many rounds as slaves are idle, the build needs no more slaves or no slave is idle, and
  -- further rounds change nothing.
  pub loop_ends :
      (r : ℕ → Answers) (n m : ℕ) (a : Allocation)
      → length a.idle_slaves ≤ n
      → let b = slave_allocation_loop fysom now r n a in
        ((needs_more_slaves b.scheduler ≡ false) ⊎ (b.idle_slaves ≡ []))
        × slave_allocation_loop fysom now r m b ≡ b
  loop_ends r n m a h =
      (ends r n a h, loop-done r m (slave_allocation_loop fysom now r n a) (ends r n a h))
