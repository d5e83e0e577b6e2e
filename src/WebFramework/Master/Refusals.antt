-- ===== src/WebFramework/Master/Refusals.antt =====
-- What a refused request leaves behind.
use cluster_runner_jie.Prelude.{
  ℕ, Bool, true, false, Option, none, some, String, List, [], ◌∷◌, ◌≡◌, ◌⊎◌, inl, inr, refl, sym,
  ap, ◌∙◌, arith, Option-cases, Bool-cases, ◌≢◌, if◌then◌else◌,
}
use cluster_runner_jie.Prelude.Dict.{Dict, lookup, keys, ℕ_eq}
use cluster_runner_jie.Errors.{Error, item_not_found, bad_request, Result, ok, err}
use cluster_runner_jie.Master.Fsm.Fysom.{Fysom}
use cluster_runner_jie.Master.Build.{Build}
use cluster_runner_jie.Master.Build.Updates.{update_build, update_build-false}
use cluster_runner_jie.Master.Slave.{Slave, Reply, mark_as_idle}
use cluster_runner_jie.Master.Registry.{get}
use cluster_runner_jie.Master.ClusterMaster.{
  ClusterMaster, SlaveState, handle_slave_state_update, add_idle_slave,
  handle_setup_success_on_slave, handle_setup_failure_on_slave, write_build,
}
use cluster_runner_jie.Master.ClusterMaster.Shutdown.{
  set_shutdown_mode_on_slaves, find_slaves, shutdown_all,
}
use cluster_runner_jie.Master.BuildRequest.{ProjectClass}
use cluster_runner_jie.Master.BuildRequest.Handling.{Requests}
use cluster_runner_jie.WebFramework.Master.{
  Body, MasterCall, put_build, put_slave, post_slave_shutdown, post_slaves_shutdown, post_heartbeat,
  with_master, left, update_found, build_put, find_slave, heartbeat_found, slaves_heartbeat_post,
  state_updated, state_update_of, slave_put, slave_shutdown_post, slaves_shutdown_post, handle,
}

-- The request names something that is not there, or is a bad one.
abbrev pub IsRefused : Error → Type 0
IsRefused e = (e ≡ item_not_found) ⊎ (e ≡ bad_request)

module _ (r : Reply) (sl : Slave) (m m' : ClusterMaster) (e : Error) where
  idle_refused : add_idle_slave r sl m ≡ (m', some e) → IsRefused e → m' ≡ m
  unfolding add_idle_slave mark_as_idle
  idle_refused q h = ground (arith, q)

module _ (fysom : Fysom) (now : ℕ) (reason : String) where
  success_refused :
      (sl : Slave) (m m' : ClusterMaster) (e : Error)
      → handle_setup_success_on_slave fysom now sl m ≡ (m', some e)
      → m' ≡ m
  unfolding handle_setup_success_on_slave
  success_refused sl m m' e q = ground (arith, q)

  failure_refused :
      (r : Reply) (sl : Slave) (m m' : ClusterMaster) (e : Error)
      → handle_setup_failure_on_slave fysom now reason r sl m ≡ (m', some e)
      → m' ≡ m
  unfolding handle_setup_failure_on_slave
  failure_refused r sl m m' e q = ground (arith, q)

  update_refused :
      (r : Reply) (sl : Slave) (state : Option SlaveState) (m m' : ClusterMaster) (e : Error)
      → handle_slave_state_update fysom now reason r sl state m ≡ (m', some e)
      → IsRefused e
      → m' ≡ m
  unfolding handle_slave_state_update
  update_refused r sl none m m' e q h = ground (arith, q)
  update_refused r sl (some SlaveState.disconnected) m m' e q h = ground (arith, q)
  update_refused r sl (some SlaveState.shutdown) m m' e q h = ground (arith, q)
  update_refused r sl (some SlaveState.idle) m m' e q h = idle_refused r sl m m' e q h
  update_refused r sl (some SlaveState.setup_completed) m m' e q h = success_refused sl m m' e q
  update_refused r sl (some SlaveState.setup_failed) m m' e q h = failure_refused r sl m m' e q

abbrev IsSame : Requests → Requests × Result ℕ → Type 0
IsSame s r = (e : Error) → r.1 ≡ err e → IsRefused e → r.0 ≡ s

raised_refused :
    (s : Requests) (m : ClusterMaster) (x : Option Error) (status : ℕ)
    → ((e : Error) → x ≡ some e → IsRefused e → m ≡ s.master)
    → IsSame s (left s (m, x) status)
raised_refused s m none status h e q k = absurd (ground (arith, q))
raised_refused s m (some x) status h e q k = ap (with_master s) (h e (ground (arith, q)) k)

-- The calls about a build or slaves that are there.
abbrev pub is_about_known : MasterCall → Bool
is_about_known (put_build i) = true
is_about_known (put_slave i) = true
is_about_known (post_slave_shutdown i) = true
is_about_known post_slaves_shutdown = true
is_about_known (post_heartbeat i) = true
is_about_known _ = false

module _ (fysom : Fysom) (now : ℕ) (lower : String → String)
    (construct : ProjectClass → Dict String String → Result (Unit {0})) (symlink : String)
    (replies : ℕ → Reply) where
  heartbeat_refused :
      (s : Requests) (o : Result Slave)
      → IsSame s (heartbeat_found fysom now lower construct symlink replies s o)
  heartbeat_refused s (err x) e q k = refl
  heartbeat_refused s (ok sl) e q k = absurd (ground (arith, q))

  state_refused :
      (s : Requests) (i : ℕ) (m : ClusterMaster) (x : Option Error)
      → ((e : Error) → x ≡ some e → IsRefused e → m ≡ s.master)
      → IsSame s (state_updated fysom now lower construct symlink replies i s (m, x))
  state_refused s i m none h e q k = elim (Option-cases (lookup i m.slaves)) [
    | inl n ↦ absurd (ground (arith, q, n))
    | inr (sl, n) ↦ absurd (ground (arith, q, n))
  ]
  state_refused s i m (some x) h e q k = ap (with_master s) (h e (ground (arith, q)) k)

  state_of_refused :
      (body : Body) (s : Requests) (o : Result Slave)
      → IsSame s (state_update_of fysom now lower construct symlink replies body s o)
  state_of_refused body s (err x) = λ e q k. refl
  state_of_refused body s (ok sl) =
      let r =
        handle_slave_state_update fysom now "Setup failed" (replies sl.slave_id) sl body.state
          s.master in
      state_refused s sl.slave_id r.0 r.1 (λ e q k.
        update_refused fysom now "Setup failed" (replies sl.slave_id) sl body.state s.master r.0 e
          (ap (λ x. (r.0, x)) q) k)

  updated_refused :
      (body : Body) (s : Requests) (o : Result Build)
      → IsSame s (update_found fysom now lower construct symlink replies body s o)
  updated_refused body s (err x) e q k = refl
  updated_refused body s (ok b) e q k = absurd (ground (arith, q))

  shutdown_refused :
      (slave_ids : List ℕ) (s : Requests)
      → IsSame s (left s (set_shutdown_mode_on_slaves fysom now replies slave_ids s.master) 200)
  unfolding set_shutdown_mode_on_slaves
  shutdown_refused slave_ids s = by_result (find_slaves slave_ids s.master.slave_registry)
    where
      by_result :
          (o : Result (List ℕ)) → IsSame s (left s (shutdown_all fysom now replies o s.master) 200)
      by_result (ok js) e q k = absurd (ground (arith, q))
      by_result (err x) e q k = refl

  handle_refused :
      (call : MasterCall) (body : Body) (s : Requests)
      → is_about_known call ≡ true
      → IsSame s (handle fysom now lower construct symlink replies call body s)
  unfolding handle build_put slave_put slave_shutdown_post slaves_shutdown_post
      slaves_heartbeat_post
  handle_refused (put_build i) body s a = updated_refused body s (get i s.master.builds)
  handle_refused (put_slave i) body s a = state_of_refused body s (find_slave i s.master)
  handle_refused (post_slave_shutdown i) body s a = shutdown_refused (i ∷ []) s
  handle_refused post_slaves_shutdown body s a =
      shutdown_refused
        (if body.shutdown_all then keys s.master.slave_registry.all_slaves_by_id else body.slaves) s
  handle_refused (post_heartbeat i) body s a = heartbeat_refused s (find_slave i s.master)
  handle_refused _ body s a = absurd (cc)

  -- The answers other than 400.
  abbrev IsOther : Requests × Result ℕ → Type 0
  IsOther r = r.1 ≢ ok 400

  left-IsOther : (s : Requests) (r : ClusterMaster × Option Error) → IsOther (left s r 200)
  left-IsOther s (m, none) q = absurd (ground (arith, q))
  left-IsOther s (m, some x) q = absurd (ground (arith, q))

  state-IsOther :
      (body : Body) (s : Requests) (o : Result Slave)
      → IsOther (state_update_of fysom now lower construct symlink replies body s o)
  state-IsOther body s (err x) q = absurd (ground (arith, q))
  state-IsOther body s (ok sl) q =
      by_state
        (handle_slave_state_update fysom now "Setup failed" (replies sl.slave_id) sl body.state
          s.master)
        q
    where
      by_state :
          (r : ClusterMaster × Option Error)
          → IsOther (state_updated fysom now lower construct symlink replies sl.slave_id s r)
      by_state (m, some x) q = absurd (ground (arith, q))
      by_state (m, none) q = elim (Option-cases (lookup sl.slave_id m.slaves)) [
        | inl n ↦ absurd (ground (arith, q, n))
        | inr (t, n) ↦ absurd (ground (arith, q, n))
      ]

  heartbeat-IsOther :
      (s : Requests) (o : Result Slave)
      → IsOther (heartbeat_found fysom now lower construct symlink replies s o)
  heartbeat-IsOther s (err x) q = absurd (ground (arith, q))
  heartbeat-IsOther s (ok sl) q = absurd (ground (arith, q))

  -- The build of the call is written back as it was found.
  abbrev pub IsUntouched : MasterCall → Requests → Requests → Type 0
  IsUntouched call s s' =
      (i : ℕ) × (b : Build) × (call ≡ put_build i)
      × (get i s.master.builds ≡ ok b)
      × (s' ≡ with_master s (write_build b s.master))

  update-IsUntouched :
      (i : ℕ) (body : Body) (s s' : Requests) (o : Result Build)
      → get i s.master.builds ≡ o
      → update_found fysom now lower construct symlink replies body s o ≡ (s', ok 400)
      → IsUntouched (put_build i) s s'
  update-IsUntouched i body s s' (err x) found q = absurd (ground (arith, ap (λ r. r.1) q))
  update-IsUntouched i body s s' (ok b) found q =
      elim (Bool-cases (update_build fysom now body.params b).1) [
        | inl e ↦ absurd (ground (arith, ap (λ r. r.1) q, e))
        | inr e ↦ (
          i,
          b,
          refl,
          found,
          sym (ap (λ r. r.0) q)
              ∙ ap (λ c. with_master s (write_build c s.master))
                  (update_build-false fysom now body.params b e),
        )
      ]

  handle-IsUntouched :
      (call : MasterCall) (body : Body) (s s' : Requests)
      → is_about_known call ≡ true
      → handle fysom now lower construct symlink replies call body s ≡ (s', ok 400)
      → IsUntouched call s s'
  unfolding handle build_put slave_put slave_shutdown_post slaves_shutdown_post
      slaves_heartbeat_post
  handle-IsUntouched (put_build i) body s s' a q =
      update-IsUntouched i body s s' (get i s.master.builds) refl q
  handle-IsUntouched (put_slave i) body s s' a q =
      absurd (state-IsOther body s (find_slave i s.master) (ap (λ r. r.1) q))
  handle-IsUntouched (post_slave_shutdown i) body s s' a q = absurd (
      left-IsOther s (set_shutdown_mode_on_slaves fysom now replies (i ∷ []) s.master)
        (ap (λ r. r.1) q))
  handle-IsUntouched post_slaves_shutdown body s s' a q =
      absurd (
        left-IsOther s (set_shutdown_mode_on_slaves fysom now replies _ s.master) (ap (λ r. r.1) q))
  handle-IsUntouched (post_heartbeat i) body s s' a q =
      absurd (heartbeat-IsOther s (find_slave i s.master) (ap (λ r. r.1) q))
  handle-IsUntouched _ body s s' a q = absurd (cc)

  -- A request about a build or slaves (to update, to shut down, or a heartbeat) that fails because
  -- something is not found, or as a bad request, leaves everything as it was. One that is answered
  -- with the status 400 is an update of a build that is there, and the build is as it was.
  pub refused_unchanged :
      (call : MasterCall) (body : Body) (s s' : Requests)
      → is_about_known call ≡ true
      → let r = handle fysom now lower construct symlink replies call body s in
        ((e : Error) → r ≡ (s', err e) → (e ≡ item_not_found) ⊎ (e ≡ bad_request) → s' ≡ s)
        × (r ≡ (s', ok 400)
            → (i : ℕ) × (b : Build) × (call ≡ put_build i)
              × (get i s.master.builds ≡ ok b)
              × (s' ≡ with_master s (write_build b s.master)))
  refused_unchanged call body s s' a = (
    λ e q k. sym (ap (λ r. r.0) q) ∙ handle_refused call body s a e (ap (λ r. r.1) q) k,
    λ q. handle-IsUntouched call body s s' a q,
  )
