-- ===== src/Master/ClusterMaster/Failures.antt =====
-- What the master does when a slave fails, comes back or reports.
use cluster_runner_jie.Prelude.{
  ℕ, ◌+◌, ◌≤◌, ◌<◌, ◌≡◌, refl, sym, ap, subst, ◌∙◌, true, Option, none, some, String, [], ◌∷◌, ◌++◌,
  arith, ltb,
}
use cluster_runner_jie.Prelude.Dict.{Dict, lookup, insert, lookup-insert, ℕ_eq, String_eq, Eq}
use cluster_runner_jie.Prelude.Int.{◌+ℤ◌}
use cluster_runner_jie.Errors.{Error, ok, err}
use cluster_runner_jie.Util.Counter.{value, change_current_value}
use cluster_runner_jie.Master.Fsm.Fysom.{Fysom}
use cluster_runner_jie.Master.Build.{Build, cancel, has_error}
use cluster_runner_jie.Master.Build.Keeping.{mark_failed-state, mark_failed-Keeps, cancel-Keeps}
use cluster_runner_jie.Master.Build.Subjobs.{Payload, complete_subjob}
use cluster_runner_jie.Master.Slave.{Slave, Reply, new_slave, mark_as_idle}
use cluster_runner_jie.Master.Registry.{SlaveRegistry, add_slave, get_slave, found, get}
use cluster_runner_jie.Master.ClusterMaster.{
  ClusterMaster, execute_next_subjob, count_setup_failure, handle_result_reported_from_slave,
  is_slave_responsive, connect_slave, forget_url, add_idle_slave, put_idle,
}

-- Setup failures below the fifth are only counted. The fifth, and each one after it, fails the
-- build.
pub count_setup_failure_lem :
    (fysom : Fysom) (now : ℕ) (reason : String) (b : Build)
    → let c = count_setup_failure fysom now reason b in
      (c.setup_failures ≡ b.setup_failures + 1)
      × (b.setup_failures < 4 → c ≡ record b { setup_failures = b.setup_failures + 1 })
      × (4 ≤ b.setup_failures → has_error c ≡ true)
unfolding count_setup_failure
count_setup_failure_lem fysom now reason b =
    let b' : Build = record b { setup_failures = b.setup_failures + 1 } in
    let c = cancel fysom now b' in
    let failures =
      (mark_failed-Keeps fysom now reason c).setup_failures
      ∙ (cancel-Keeps fysom now b').setup_failures in
    let state = mark_failed-state fysom now reason c in
    (ground (arith, failures), (λ h. ground arith), (λ h. ground (arith, state)))

found-insert :
    {K V : Type 0} ⦃e : Eq K⦄ (k : K) (v : V) (d : Dict K V)
    → found (lookup k (insert k v d)) ≡ ok v
found-insert ⦃e = e⦄ k v d = rw (lookup-insert k k v d, (e.beq_iff k k).1 refl) refl

get-insert : (i : ℕ) (b : Build) (d : Dict ℕ Build) → get i (insert i b d) ≡ ok b
unfolding get
get-insert i b d = found-insert i b d

-- A result from a known slave for a known build is followed by that slave's next subjob, also if
-- recording it raises, which the slave is told. For any other slave or build nothing changes.
pub handle_result_reported_lem :
    (url : String) (build_id subjob_id : ℕ) (p : Payload) (m : ClusterMaster)
    → let r = handle_result_reported_from_slave url build_id subjob_id p m in
      ((b : Build) (i : ℕ)
        → get build_id m.builds ≡ ok b
        → get_slave none (some url) m.slave_registry ≡ ok i
        → (r.0.submitted ≡ m.submitted ++ execute_next_subjob build_id i ∷ [])
          × (get build_id r.0.builds ≡ ok (complete_subjob subjob_id p b).0)
          × (r.1 ≡ (complete_subjob subjob_id p b).1))
      × ((e : Error) → get build_id m.builds ≡ err e → (r.0 ≡ m) × (r.1 ≡ some e))
      × ((b : Build) (e : Error)
          → get build_id m.builds ≡ ok b
          → get_slave none (some url) m.slave_registry ≡ err e
          → (r.0 ≡ m) × (r.1 ≡ some e))
unfolding handle_result_reported_from_slave
handle_result_reported_lem url build_id subjob_id p m = (
  (λ b i known from. rw (handle_result_reported_from_slave, known, from) (refl, got b, refl)),
  (λ e known. rw (handle_result_reported_from_slave, known) (refl, refl)),
  (λ b e known from. rw (handle_result_reported_from_slave, known, from) (refl, refl)),
)
  where
    got :
        (b : Build)
        → get build_id (insert build_id (complete_subjob subjob_id p b).0 m.builds)
          ≡ ok (complete_subjob subjob_id p b).0
    got b = get-insert build_id _ m.builds

-- The time since the last heartbeat is taken without its days: a slave that is silent for a day
-- longer is as responsive as before.
pub is_slave_responsive_day :
    (now interval : ℕ) (sl : Slave)
    → sl.last_heartbeat_time ≤ now
    → is_slave_responsive (now + 86400) interval sl ≡ is_slave_responsive now interval sl
unfolding is_slave_responsive
is_slave_responsive_day now interval sl h = ap (λ t. ltb t interval) (omega arith)

idle_new :
    (r : Reply) (url : String) (n i now : ℕ) (session_id : Option String) (m : ClusterMaster)
    → let sl = new_slave url n session_id i now in
      add_idle_slave r sl m
      ≡ (record m { slaves = insert i sl m.slaves; idle_slaves = put_idle i m.idle_slaves }, none)
unfolding add_idle_slave mark_as_idle new_slave value change_current_value ◌+ℤ◌
idle_new r url n i now session_id m = refl

abbrev with_id : ℕ → ClusterMaster × Option Error → (ClusterMaster × ℕ) × Option Error
with_id i (m, e) = ((m, i), e)

registered_lem :
    (url : String) (n : ℕ) (session_id : Option String) (i now : ℕ) (g : SlaveRegistry)
    → let g' = add_slave (new_slave url n session_id i now) g in
      (get_slave none (some url) g' ≡ ok i) × (get_slave (some i) none g' ≡ ok i)
unfolding add_slave new_slave get_slave
registered_lem url n session_id i now g =
    (found-insert url i g.all_slaves_by_url, found-insert i i g.all_slaves_by_id)

connect-eq :
    (fysom : Fysom) (now : ℕ) (r : Reply) (url : String) (n : ℕ) (session_id : Option String)
    (m : ClusterMaster)
    → let m' = forget_url fysom now url m in
      let i = m'.slave_id_counter + 1 in
      let sl = new_slave url n session_id i now in
      connect_slave fysom now r url n session_id m ≡ (
        (
          record m' {
            slaves = insert i sl (insert i sl m'.slaves);
            slave_id_counter = i;
            slave_registry = add_slave sl m'.slave_registry;
            idle_slaves = put_idle i m'.idle_slaves;
          },
          i,
        ),
        none,
      )
unfolding connect_slave
connect-eq fysom now r url n session_id m =
    let m' = forget_url fysom now url m in
    let i = m'.slave_id_counter + 1 in
    let sl = new_slave url n session_id i now in
    ap (with_id i) (
      idle_new r url n i now session_id (record m' {
        slaves = insert i sl m'.slaves;
        slave_id_counter = i;
        slave_registry = add_slave sl m'.slave_registry;
      }))

-- The new id of a slave, after it has connected to the master `m`.
pub record IsConnected (url : String) (n now counter : ℕ) (session_id : Option String)
    (c : (ClusterMaster × ℕ) × Option Error) : Type 0 where
  pub raises : c.1 ≡ none
  pub new_id : c.0.1 ≡ counter + 1
  pub by_url : get_slave none (some url) c.0.0.slave_registry ≡ ok c.0.1
  pub by_id : get_slave (some c.0.1) none c.0.0.slave_registry ≡ ok c.0.1
  pub slave : lookup c.0.1 c.0.0.slaves ≡ some (new_slave url n session_id c.0.1 now)

-- A slave that connects gets a new id, under which and under its URL it is registered, and is the
-- object of a new slave.
pub connect_slave_lem :
    (fysom : Fysom) (now : ℕ) (r : Reply) (url : String) (n : ℕ) (session_id : Option String)
    (m : ClusterMaster)
    → IsConnected url n now
        (forget_url fysom now url m).slave_id_counter
        session_id
        (connect_slave fysom now r url n session_id m)
connect_slave_lem fysom now r url n session_id m =
    let m' = forget_url fysom now url m in
    let i = m'.slave_id_counter + 1 in
    let sl = new_slave url n session_id i now in
    let reg = registered_lem url n session_id i now m'.slave_registry in
    subst (IsConnected url n now m'.slave_id_counter session_id)
      (sym (connect-eq fysom now r url n session_id m))
      (record {
        raises = refl;
        new_id = refl;
        by_url = reg.0;
        by_id = reg.1;
        slave = lookup-insert i i sl (insert i sl m'.slaves) ∙ ground arith;
      })
