-- ===== src/Slave/ClusterSlave/Idle.antt =====
-- Which executors are idle and which work, and how often a build is torn down.
use cluster_runner_jie.Prelude.{
  none, ℕ, suc, zero, ◌+◌, ◌≤◌, true, false, Option, some, List, [], ◌∷◌, ◌++◌, map, length,
  length-append, length-map, length-Perm, length-nil, perm-give, perm-take_back, ◌≡◌, ◌↔◌, ◌≢◌, inl,
  inr, Bool-cases, ◌∙◌, refl, sym, ap, subst, arith,
}
use mathlib.Core.List.Perm
use mathlib.Core.List.{Perm, append_assoc, append-nil}
use cluster_runner_jie.Errors.{Error}
use cluster_runner_jie.Util.Queue
use cluster_runner_jie.Util.Queue.{Queue}
use cluster_runner_jie.Slave.ClusterSlave.{
  ClusterSlave, Work, new_slave, connect_to_master, start_working_on_subjob, finish_subjob,
  fail_subjob, ids_from, is_build,
}
use cluster_runner_jie.Slave.ClusterSlave.Steps.{
  Step, Reach, begins, then_step, sets_up, runs_setup, tears_down, resets, is_idle, starts,
  finishes, breaks, disconnects, connects, beats,
}
use cluster_runner_jie.Slave.ClusterSlave.Frames.{
  Pool, pool, pool-setup_build, pool-async_setup_build, pool-teardown_build, pool-begin_teardown,
  pool-notify, pool-disconnect, pool-run_heartbeat,
}

abbrev pub executor_ids : List Work → List ℕ
executor_ids ws = map (λ w. w.executor_id) ws

record IsShared (n : ℕ) (p : Pool) : Type 0 where
  capacity : p.idle.maxsize ≡ n
  shared : Perm (p.idle.items ++ executor_ids p.working) (ids_from 0 n)

-- Taking one out of the working list, or putting one in.
length-ids_from : (i n : ℕ) → length (ids_from i n) ≡ n
length-ids_from i zero = refl
length-ids_from i (suc n) = ap suc (length-ids_from (suc i) n)

executor_ids-append :
    (xs ys : List Work) → executor_ids (xs ++ ys) ≡ executor_ids xs ++ executor_ids ys
executor_ids-append [] ys = refl
executor_ids-append (x ∷ xs) ys = ap (λ l. x.executor_id ∷ l) (executor_ids-append xs ys)

length-shared : (n : ℕ) (p : Pool) → IsShared n p → length p.idle.items + length p.working ≡ n
length-shared n p h = omega (
  arith,
  length-append p.idle.items (executor_ids p.working),
  length-map (λ (w : Work). w.executor_id) p.working,
  length-Perm h.shared,
  length-ids_from 0 n,
)

new_slave-IsShared : (n k : ℕ) → IsShared n (pool (new_slave n k))
unfolding new_slave
new_slave-IsShared n k = record {
  capacity = refl;
  shared = subst (λ l. Perm l (ids_from 0 n)) (sym (append-nil (ids_from 0 n))) (Perm.refl _);
}

-- What starting a subjob does to the pool.
claim : Pool → Work → List ℕ → Pool
claim p w q = record p {
  idle = record { maxsize = p.idle.maxsize; items = q };
  working = p.working ++ w ∷ [];
}

claim-IsShared :
    {n : ℕ} (p : Pool) (w : Work) (q : List ℕ)
    → p.idle.items ≡ w.executor_id ∷ q
    → IsShared n p
    → IsShared n (claim p w q)
unfolding claim
claim-IsShared {n} p w q e h = record {
  capacity = h.capacity;
  shared =
      Perm.trans
        (Perm.symm (
          subst (λ l. Perm ((w.executor_id ∷ q) ++ executor_ids p.working) (q ++ l))
            (sym (executor_ids-append p.working (w ∷ [])))
            (perm-give w.executor_id q (executor_ids p.working))))
        (subst (λ l. Perm (l ++ executor_ids p.working) (ids_from 0 n)) e h.shared);
}

release : Pool → Work → List Work → Pool
release p w ws = record p {
  idle = record { maxsize = p.idle.maxsize; items = p.idle.items ++ w.executor_id ∷ [] };
  working = ws;
}

release-IsShared :
    {n : ℕ} (p : Pool) (w : Work) (before after : List Work)
    → p.working ≡ before ++ w ∷ after
    → IsShared n p
    → IsShared n (release p w (before ++ after))
unfolding release
release-IsShared {n} p w before after e h = record {
  capacity = h.capacity;
  shared =
      Perm.trans
        (Perm.symm (
          subst
            (λ l.
              Perm (p.idle.items ++ (executor_ids before ++ w.executor_id ∷ executor_ids after))
                ((p.idle.items ++ w.executor_id ∷ []) ++ l))
            (sym (executor_ids-append before after))
            (perm-take_back w.executor_id p.idle.items (executor_ids before) (executor_ids after))))
        (subst (λ l. Perm (p.idle.items ++ l) (ids_from 0 n))
          (ap executor_ids e ∙ executor_ids-append before (w ∷ after)) h.shared);
}

transport-IsShared : {n : ℕ} {p q : Pool} → p ≡ q → IsShared n q → IsShared n p
transport-IsShared {n} e h = subst (IsShared n) (sym e) h

abbrev work_of : ℕ → ℕ → ℕ → Work
work_of i j x = record { build_id = i; subjob_id = j; executor_id = x }

start-refused :
    (s t : ClusterSlave) (i j : ℕ) (e : Option Error)
    → is_build i s.current_build_id ≡ false
    → start_working_on_subjob i j s ≡ some (t, e)
    → pool t ≡ pool s
unfolding start_working_on_subjob
start-refused s t i j e b h = ground arith

start-claims :
    (s t : ClusterSlave) (i j x : ℕ) (xs : List ℕ) (e : Option Error)
    → is_build i s.current_build_id ≡ true
    → s.idle_executors.items ≡ x ∷ xs
    → start_working_on_subjob i j s ≡ some (t, e)
    → pool t ≡ claim (pool s) (work_of i j x) xs
unfolding start_working_on_subjob claim
start-claims s t i j x xs e b q h =
    ground (arith, append_assoc s.lost s.working (work_of i j x ∷ []))

start-blocks :
    (s t : ClusterSlave) (i j : ℕ) (e : Option Error)
    → is_build i s.current_build_id ≡ true
    → s.idle_executors.items ≡ []
    → start_working_on_subjob i j s ≢ some (t, e)
unfolding start_working_on_subjob
start-blocks s t i j e b q h = ground arith

start-IsShared :
    {n : ℕ} (s t : ClusterSlave) (i j : ℕ) (e : Option Error)
    → start_working_on_subjob i j s ≡ some (t, e)
    → IsShared n (pool s)
    → IsShared n (pool t)
start-IsShared {n} s t i j e h p = elim (Bool-cases (is_build i s.current_build_id)) [
  | inl b ↦ claims b s.idle_executors.items refl
  | inr b ↦ transport-IsShared (start-refused s t i j e b h) p
]
  where
    claims :
        is_build i s.current_build_id ≡ true
        → (xs : List ℕ) → s.idle_executors.items ≡ xs
        → IsShared n (pool t)
    claims b [] q = absurd (start-blocks s t i j e b q h)
    claims b (x ∷ xs) q =
        transport-IsShared (start-claims s t i j x xs e b q h)
          (claim-IsShared (pool s) (work_of i j x) xs q p)

finish_subjob-pool :
    {n : ℕ} (s : ClusterSlave) (w : Work) (before after : List Work)
    → s.working ≡ before ++ w ∷ after
    → IsShared n (pool s)
    → pool (finish_subjob w (record s { working = before ++ after }))
      ≡ release (pool s) w ((s.lost ++ before) ++ after)
unfolding finish_subjob release
finish_subjob-pool {n} s w before after e p = ground (
  arith,
  length-shared n (pool s) p,
  length-append s.lost s.working,
  length-middle,
  append_assoc s.lost before after,
)
  where
    length-middle : length s.working ≡ suc (length before + length after)
    length-middle = ap length e ∙ (length-append before (w ∷ after) ∙ omega arith)

-- The work is still counted, among the lost.
fail_subjob-IsShared :
    {n : ℕ} (s : ClusterSlave) (w : Work) (before after : List Work) (e : Error)
    → s.working ≡ before ++ w ∷ after
    → IsShared n (pool s)
    → IsShared n (pool (fail_subjob e w (record s { working = before ++ after })))
unfolding fail_subjob
fail_subjob-IsShared {n} s w before after e q h = record {
  capacity = h.capacity;
  shared =
      Perm.trans
        (Perm.append_left s.idle_executors.items (
          Perm.map (λ (w : Work). w.executor_id)
            (Perm.symm (perm-take_back w s.lost before after))))
        (subst (λ l. Perm (s.idle_executors.items ++ executor_ids (s.lost ++ l)) (ids_from 0 n)) q
          h.shared);
}

pool-connect : (s : ClusterSlave) (i : Option ℕ) → pool (connect_to_master i s) ≡ pool s
unfolding connect_to_master
pool-connect s none = refl
pool-connect s (some i) = refl

Step-IsShared : {n : ℕ} {s t : ClusterSlave} → Step s t → IsShared n (pool s) → IsShared n (pool t)
Step-IsShared {s} (sets_up i j b) h = transport-IsShared (pool-setup_build s i j b) h
Step-IsShared (runs_setup before after w o a e) h =
    transport-IsShared (pool-async_setup_build a w o _) h
Step-IsShared {s} (tears_down i) h = transport-IsShared (pool-teardown_build s i) h
Step-IsShared (resets n f e) h = transport-IsShared (pool-begin_teardown _ f) h
Step-IsShared (is_idle n r a e f) h = transport-IsShared (pool-notify _ r a) h
Step-IsShared {s} {t} (starts i j e r) h = start-IsShared s t i j e r h
Step-IsShared {s} (finishes before after w e) h =
    transport-IsShared (finish_subjob-pool s w before after e h) (
      release-IsShared (pool s) w (s.lost ++ before) after
        (ap (λ l. s.lost ++ l) e ∙ sym (append_assoc s.lost before (w ∷ after))) h)
Step-IsShared {s} (breaks before after w x e) h = fail_subjob-IsShared s w before after x e h
Step-IsShared {s} (disconnects r a) h = transport-IsShared (pool-disconnect s r a) h
Step-IsShared {s} (connects i) h = transport-IsShared (pool-connect s i) h
Step-IsShared {s} (beats b) h = transport-IsShared (pool-run_heartbeat s b) h

Reach-IsShared : {n k : ℕ} {s : ClusterSlave} → Reach n k s → IsShared n (pool s)
Reach-IsShared {n} {k} begins = new_slave-IsShared n k
Reach-IsShared (then_step r st) = Step-IsShared st (Reach-IsShared r)

-- In every state that a slave with at least one executor comes to, each executor is exactly once
-- either idle, or at work on a subjob, or lost because the thread of its subjob has raised; and the
-- queue of idle executors is full if and only if no subjob is worked on and no executor is lost.
pub idle_or_working :
    {n k : ℕ} {s : ClusterSlave}
    → 1 ≤ n
    → Reach n k s
    → Perm (s.idle_executors.items ++ executor_ids (s.lost ++ s.working)) (ids_from 0 n)
      × (Queue.full s.idle_executors ≡ true ↔ s.lost ++ s.working ≡ [])
idle_or_working {n} {k} {s} some_executor r = (
  h.shared,
  (
    λ f. length-nil (s.lost ++ s.working) (ground (arith, total, h.capacity)),
    λ e. ground (arith, total, h.capacity, ap length e),
  ),
)
  where
    h : IsShared n (pool s)
    h = Reach-IsShared r

    total : length s.idle_executors.items + length (s.lost ++ s.working) ≡ n
    total = length-shared n (pool s) h
