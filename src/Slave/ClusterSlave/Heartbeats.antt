-- ===== src/Slave/ClusterSlave/Heartbeats.antt =====
-- The heartbeats of app/slave/cluster_slave.py: when a slave gives its master up.
use cluster_runner_jie.Prelude.{
  Bool, ℕ, zero, suc, ◌+◌, ◌≤◌, ◌<◌, true, false, List, [], ◌∷◌, ◌≡◌, ◌↔◌, refl, arith, leb,
  if◌then◌else◌,
}
use native.Mathlib.Decide.{dec_le}
use cluster_runner_jie.Slave.ClusterSlave.{ClusterSlave}

-- What comes of a heartbeat: an answer that says whether the master holds the slave for alive, a
-- refusal, or no connection.
pub data Heartbeat : Type 0 where
  says_alive : Bool → Heartbeat
  refused unreachable : Heartbeat

abbrev kill : ClusterSlave → ClusterSlave
kill s = record s { has_exited = true }

unfoldable pub run_heartbeat : Heartbeat → ClusterSlave → ClusterSlave
run_heartbeat (says_alive true) s = record s { heartbeat_failure_count = 0 }
run_heartbeat (says_alive false) s = kill s
run_heartbeat refused s = kill s
run_heartbeat unreachable s =
    let s' = record s { heartbeat_failure_count = s.heartbeat_failure_count + 1 } in
    if leb s'.heartbeat_failure_threshold s'.heartbeat_failure_count then kill s' else s'

-- Heartbeats, one after the other, until the process exits.
unfoldable pub run_heartbeats : List Heartbeat → ClusterSlave → ClusterSlave
unfolding run_heartbeat
run_heartbeats [] s = s
run_heartbeats (h ∷ hs) s =
    let rest = run_heartbeats hs (run_heartbeat h s) in if s.has_exited then s else rest

abbrev pub no_answers : ℕ → List Heartbeat
no_answers zero = []
no_answers (suc n) = unreachable ∷ no_answers n

run_heartbeats-exited :
    (hs : List Heartbeat) (s : ClusterSlave) → s.has_exited ≡ true → run_heartbeats hs s ≡ s
unfolding run_heartbeats
run_heartbeats-exited [] s e = refl
run_heartbeats-exited (h ∷ hs) s e = ground arith

module _ (s : ClusterSlave) (running : s.has_exited ≡ false) where
  next-unreachable :
      (hs : List Heartbeat)
      → run_heartbeats (unreachable ∷ hs) s ≡ run_heartbeats hs (run_heartbeat unreachable s)
  unfolding run_heartbeats
  next-unreachable hs = ground arith

  last_missed :
      s.heartbeat_failure_threshold ≤ suc s.heartbeat_failure_count
      → (run_heartbeat unreachable s).has_exited ≡ true
  unfolding run_heartbeat
  last_missed h = ground arith

  missed :
      suc s.heartbeat_failure_count < s.heartbeat_failure_threshold
      → run_heartbeat unreachable s
        ≡ record s { heartbeat_failure_count = suc s.heartbeat_failure_count }
  unfolding run_heartbeat
  missed h = ground arith

last_one :
    (s : ClusterSlave)
    → s.has_exited ≡ false
    → (run_heartbeats [] (run_heartbeat unreachable s)).has_exited
      ≡ leb s.heartbeat_failure_threshold (s.heartbeat_failure_count + 1)
unfolding run_heartbeats run_heartbeat
last_one s running = ground arith

early :
    (m : ℕ) (s : ClusterSlave)
    → s.has_exited ≡ false
    → s.heartbeat_failure_threshold ≤ suc s.heartbeat_failure_count
    → (run_heartbeats (no_answers (suc (suc m))) s).has_exited
      ≡ leb s.heartbeat_failure_threshold (s.heartbeat_failure_count + suc (suc m))
early m s running h =
    rw
      (
        next-unreachable s running (no_answers (suc m)),
        run_heartbeats-exited (no_answers (suc m)) (run_heartbeat unreachable s)
            (last_missed s running h),
        last_missed s running h,
      )
      (ground arith)

next-alive :
    (hs : List Heartbeat) (s : ClusterSlave)
    → s.has_exited ≡ false
    → run_heartbeats (says_alive true ∷ hs) s
      ≡ run_heartbeats hs (record s { heartbeat_failure_count = 0 })
unfolding run_heartbeats run_heartbeat
next-alive hs s running = ground arith

exited-no_answers :
    (n : ℕ) (s : ClusterSlave)
    → s.has_exited ≡ false
    → (run_heartbeats (no_answers (suc n)) s).has_exited
      ≡ leb s.heartbeat_failure_threshold (s.heartbeat_failure_count + suc n)
exited-no_answers zero s running = rw (next-unreachable s running []) (last_one s running)
exited-no_answers (suc m) s running =
    elim (dec_le s.heartbeat_failure_threshold (suc s.heartbeat_failure_count)) [
      | yes h ↦ early m s running h
      | no h ↦
          rw (next-unreachable s running (no_answers (suc m)), missed s running (omega arith))
            (ground (
              arith,
              exited-no_answers m
                  (record s { heartbeat_failure_count = suc s.heartbeat_failure_count }) running,
            ))
    ]

-- A running slave that has missed `count` answers of its master in a row exits on the next
-- `n + 1` heartbeats without an answer if and only if `count + n + 1` reaches the threshold; an
-- answer that it is alive before them sets `count` to 0.
pub gives_up_iff :
    (n : ℕ) (s : ClusterSlave)
    → s.has_exited ≡ false
    → ((run_heartbeats (no_answers (suc n)) s).has_exited ≡ true
        ↔ s.heartbeat_failure_threshold ≤ s.heartbeat_failure_count + suc n)
      × ((run_heartbeats (says_alive true ∷ no_answers (suc n)) s).has_exited ≡ true
          ↔ s.heartbeat_failure_threshold ≤ suc n)
gives_up_iff n s running = ground (arith, exited-no_answers n s running, answered)
  where
    answered :
        (run_heartbeats (says_alive true ∷ no_answers (suc n)) s).has_exited
        ≡ leb s.heartbeat_failure_threshold (suc n)
    answered =
        rw (next-alive (no_answers (suc n)) s running)
          (ground (arith, exited-no_answers n (record s { heartbeat_failure_count = 0 }) running))
