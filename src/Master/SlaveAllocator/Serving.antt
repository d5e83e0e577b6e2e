-- ===== src/Master/SlaveAllocator/Serving.antt =====
-- No slave that can work is lost.
use cluster_runner_jie.Prelude.{
  ℕ, Bool, true, false, not, ◌&&◌, List, [], ◌∷◌, ◌++◌, ◌≡◌, ◌⊎◌, inl, inr, refl, arith, ==_iff,
}
use cluster_runner_jie.Prelude.Int.{ltb_ℤ, pos}
use cluster_runner_jie.Prelude.Dict.{ℕ_eq}
use cluster_runner_jie.Util.Counter.{value}
use cluster_runner_jie.Util.OrderedSet.Lists.{put, has}
use cluster_runner_jie.Master.Fsm.Fysom.{Fysom}
use cluster_runner_jie.Master.Slave.{
  Slave, Shown, check_alive, mark_as_idle, shows, no_response, not_ok, missing_key, not_boolean,
}
use cluster_runner_jie.Master.Scheduler.{needs_more_slaves, allocate_slave, is_in}
use cluster_runner_jie.Master.SlaveAllocator.{
  Allocation, Answers, Meanwhile, write_slave, add_idle_slave, allocate_or_return, allocate_claimed,
}

has-append : (k : ℕ) (xs : List ℕ) → has k (xs ++ k ∷ []) ≡ true
unfolding has
has-append k [] = ground (arith, ==_iff k k)
has-append k (x ∷ xs) = ground (arith, has-append k xs)

has-put : (k : ℕ) (xs : List ℕ) → has k (put k xs) ≡ true
unfolding put
has-put k xs = ground (arith, has-append k xs)

is_in-append : (i : ℕ) (xs : List ℕ) → is_in i (xs ++ i ∷ []) ≡ true
is_in-append i [] = ground (arith, ==_iff i i)
is_in-append i (x ∷ xs) = ground (arith, is_in-append i xs)

check_alive-same :
    (sh : Shown) (sl : Slave)
    → let c = check_alive sh sl in
      c.0.slave_id ≡ sl.slave_id
      × c.0.num_executors_in_use ≡ sl.num_executors_in_use
      × c.0.is_in_shutdown_mode ≡ sl.is_in_shutdown_mode
unfolding check_alive
check_alive-same (shows b) sl = (refl, refl, refl)
check_alive-same no_response sl = (refl, refl, refl)
check_alive-same not_ok sl = (refl, refl, refl)
check_alive-same missing_key sl = (refl, refl, refl)
check_alive-same not_boolean sl = (refl, refl, refl)

module _ (fysom : Fysom) (now : ℕ) (r : Answers) (sl : Slave) (a : Allocation) where
  dropped :
      (meanwhile : Meanwhile)
      → (sl.is_in_shutdown_mode ≡ true) ⊎ ((check_alive r.alive sl).1 ≡ false)
      → (allocate_claimed fysom now r meanwhile sl a).idle_slaves ≡ a.idle_slaves
        × (allocate_claimed fysom now r meanwhile sl a).scheduler ≡ a.scheduler
  unfolding allocate_claimed
  dropped meanwhile h = ground arith

  goes_on :
      (meanwhile : Meanwhile)
      → sl.is_in_shutdown_mode ≡ false
      → (check_alive r.alive sl).1 ≡ true
      → allocate_claimed fysom now r meanwhile sl a
        ≡ allocate_or_return fysom now r
            (meanwhile.to_slave (check_alive r.alive sl).0)
            (record (write_slave (meanwhile.to_slave (check_alive r.alive sl).0) a) {
              scheduler = meanwhile.to_scheduler a.scheduler;
            })
  unfolding allocate_claimed
  goes_on meanwhile h k = ground arith

  gets_build :
      needs_more_slaves a.scheduler ≡ true
      → (allocate_or_return fysom now r sl a).idle_slaves ≡ a.idle_slaves
        × (allocate_or_return fysom now r sl a).scheduler.slaves_allocated
          ≡ a.scheduler.slaves_allocated ++ sl.slave_id ∷ []
  unfolding allocate_or_return allocate_slave
  gets_build h = ground arith

  goes_back :
      needs_more_slaves a.scheduler ≡ false
      → sl.is_in_shutdown_mode ≡ false
      → ltb_ℤ (pos 0) (value sl.num_executors_in_use) ≡ false
      → (allocate_or_return fysom now r sl a).idle_slaves ≡ put sl.slave_id a.idle_slaves
        × (allocate_or_return fysom now r sl a).scheduler ≡ a.scheduler
        × (allocate_or_return fysom now r sl a).raised ≡ a.raised
  unfolding allocate_or_return add_idle_slave mark_as_idle
  goes_back n s c = ground arith

  shut_down :
      needs_more_slaves a.scheduler ≡ false
      → sl.is_in_shutdown_mode ≡ true
      → ltb_ℤ (pos 0) (value sl.num_executors_in_use) ≡ false
      → (allocate_or_return fysom now r sl a).idle_slaves ≡ a.idle_slaves
        × (allocate_or_return fysom now r sl a).scheduler ≡ a.scheduler
        × (allocate_or_return fysom now r sl a).raised ≡ a.raised
  unfolding allocate_or_return add_idle_slave mark_as_idle
  shut_down n s c = ground arith

-- The allocator takes a slave from the idle ones. If the slave is in shutdown mode or does not
-- answer that it is alive, it is dropped, and the build keeps what it has. Otherwise other threads
-- may change the scheduler and the slave, but for its id, and none of its executors is in use: if
-- the build then needs more slaves, the slave is allocated to the build; else the build is left
-- alone, and the slave is idle again, unless it was put in shutdown mode meanwhile: then it is not.
pub allocate_claimed_lem :
    (fysom : Fysom) (now : ℕ) (r : Answers) (meanwhile : Meanwhile) (sl : Slave) (a : Allocation)
    → let waited = meanwhile.to_slave (check_alive r.alive sl).0 in
      let b = allocate_claimed fysom now r meanwhile sl a in
      let st = meanwhile.to_scheduler a.scheduler in
      let usable = not sl.is_in_shutdown_mode && (check_alive r.alive sl).1 in
      waited.slave_id ≡ sl.slave_id
      → ltb_ℤ (pos 0) (value waited.num_executors_in_use) ≡ false
      → (usable ≡ false → b.idle_slaves ≡ a.idle_slaves × b.scheduler ≡ a.scheduler)
        × (usable ≡ true
            → needs_more_slaves st ≡ true
            → is_in sl.slave_id b.scheduler.slaves_allocated ≡ true × b.idle_slaves ≡ a.idle_slaves)
        × (usable ≡ true
            → needs_more_slaves st ≡ false
            → waited.is_in_shutdown_mode ≡ false
            → has sl.slave_id b.idle_slaves ≡ true × b.scheduler ≡ st × b.raised ≡ a.raised)
        × (usable ≡ true
            → needs_more_slaves st ≡ false
            → waited.is_in_shutdown_mode ≡ true
            → b.idle_slaves ≡ a.idle_slaves × b.scheduler ≡ st × b.raised ≡ a.raised)
allocate_claimed_lem fysom now r meanwhile sl a same c = (
  (λ u.
      dropped fysom now r sl a meanwhile
        (unusable sl.is_in_shutdown_mode (check_alive r.alive sl).1 u)),
  (λ u n. ground (
    arith,
    goes_on fysom now r sl a meanwhile (ground arith) (ground arith),
    gets_build fysom now r waited later n,
    same,
    is_in-append waited.slave_id later.scheduler.slaves_allocated,
  )),
  (λ u n m. ground (
    arith,
    goes_on fysom now r sl a meanwhile (ground arith) (ground arith),
    goes_back fysom now r waited later n m c,
    same,
    has-put waited.slave_id a.idle_slaves,
  )),
  (λ u n m. ground (
    arith,
    goes_on fysom now r sl a meanwhile (ground arith) (ground arith),
    shut_down fysom now r waited later n m c,
  )),
)
  where
    waited : Slave
    waited = meanwhile.to_slave (check_alive r.alive sl).0

    later : Allocation
    later = record (write_slave waited a) { scheduler = meanwhile.to_scheduler a.scheduler }

    unusable : (x y : Bool) → (not x && y) ≡ false → (x ≡ true) ⊎ (y ≡ false)
    unusable true y e = inl refl
    unusable false y e = inr e
