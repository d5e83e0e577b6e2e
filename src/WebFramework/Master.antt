-- ===== src/WebFramework/Master.antt =====
-- app/web_framework/cluster_master_application.py: the handlers that change something, each as
-- a function of the decoded body, and the pages of lists. The other handlers only read.
pub mod Refusals
mod Examples
use cluster_runner_jie.Prelude.{
  ℕ, ◌+◌, Bool, true, false, Option, none, some, String, List, [], ◌∷◌, if◌then◌else◌,
}
use cluster_runner_jie.Prelude.Int.{ℤ}
use cluster_runner_jie.Prelude.Dict.{Dict, lookup, insert, keys, ℕ_eq, String_eq}
use cluster_runner_jie.Errors.{
  Error, item_not_found, runtime_error, type_error, value_error, Result, ok, err,
}
use cluster_runner_jie.Master.Fsm.Fysom.{Fysom}
use cluster_runner_jie.Master.Build.{Build}
use cluster_runner_jie.Master.Build.Subjobs.{Payload}
use cluster_runner_jie.Master.Build.Updates.{update_build, get_subjobs}
use cluster_runner_jie.Master.Subjob.{Subjob}
use cluster_runner_jie.Master.Slave.{Slave, Reply}
use cluster_runner_jie.Master.Registry.{get, get_slave}
use cluster_runner_jie.Master.ClusterMaster.{
  ClusterMaster, SlaveState, write_build, connect_slave, handle_slave_state_update,
  record_heartbeat, handle_result_reported_from_slave, get_builds,
}
use cluster_runner_jie.Master.ClusterMaster.Shutdown.{set_shutdown_mode_on_slaves}
use cluster_runner_jie.Master.BuildRequest.{ProjectClass}
use cluster_runner_jie.Master.BuildRequest.Handling.{
  Requests, Response, handle_request_for_new_build,
}
use cluster_runner_jie.WebFramework.Handler.{Library, Limits, Request, serve, get_pagination_params}

-- What the handlers read from a body.
pub record Body : Type 0 where
  pub params : Dict String String
  pub slave : Option String
  -- `int(…)` of the number of executors, where `none` is no number
  pub num_executors : Option ℕ
  pub session_id : Option String
  pub state : Option SlaveState
  pub shutdown_all : Bool
  pub slaves : List ℕ
  pub file : Option Payload

pub data MasterCall : Type 0 where
  post_build : MasterCall
  put_build : ℕ → MasterCall
  post_result : ℕ → ℕ → MasterCall
  post_slave : MasterCall
  put_slave : ℕ → MasterCall
  post_slave_shutdown : ℕ → MasterCall
  post_slaves_shutdown : MasterCall
  post_heartbeat : ℕ → MasterCall

-- The methods under `@authenticated`.
abbrev pub is_authenticated : MasterCall → Bool
is_authenticated (post_result b i) = false
is_authenticated post_slave = false
is_authenticated _ = true

abbrev pub with_master : Requests → ClusterMaster → Requests
with_master s m = record s { master = m }

abbrev pub raised_or : Option Error → ℕ → Result ℕ
raised_or none status = ok status
raised_or (some e) status = err e

abbrev pub if_success : Bool → ℕ → ℕ
if_success true status = status
if_success false status = 400

abbrev pub left : Requests → ClusterMaster × Option Error → ℕ → Requests × Result ℕ
left s (m, e) status = (with_master s m, raised_or e status)

-- The object of a slave that is registered.
abbrev pub slave_object : ClusterMaster → Result ℕ → Result Slave
slave_object m (err e) = err e
slave_object m (ok i) = elim (lookup i m.slaves) [ none ↦ err item_not_found | some sl ↦ ok sl ]

abbrev pub find_slave : ℕ → ClusterMaster → Result Slave
find_slave i m = slave_object m (get_slave (some i) none m.slave_registry)

module _ (fysom : Fysom) (now : ℕ) (lower : String → String)
    (construct : ProjectClass → Dict String String → Result (Unit {0})) (symlink : String)
    (replies : ℕ → Reply) where
  abbrev pub build_response : Requests × Result (Bool × Response) → Requests × Result ℕ
  build_response (s, err e) = (s, err e)
  build_response (s, ok (success, response)) = (s, ok (if_success success 202))

  unfoldable pub builds_post : Body → Requests → Requests × Result ℕ
  builds_post body s =
      build_response (handle_request_for_new_build lower construct now symlink body.params s)

  abbrev pub updated : Requests → Build × Bool → Requests × Result ℕ
  updated s (b, success) = (with_master s (write_build b s.master), ok (if_success success 200))

  abbrev pub update_found : Body → Requests → Result Build → Requests × Result ℕ
  update_found body s (err e) = (s, err e)
  update_found body s (ok b) = updated s (update_build fysom now body.params b)

  unfoldable pub build_put : ℕ → Body → Requests → Requests × Result ℕ
  build_put i body s = update_found body s (get i s.master.builds)

  abbrev pub result_posted : ℕ → ℕ → String → Option Payload → Requests → Requests × Result ℕ
  result_posted build_id subjob_id url none s = (s, err runtime_error)
  result_posted build_id subjob_id url (some file) s =
      left s (handle_result_reported_from_slave url build_id subjob_id file s.master) 200

  unfoldable pub subjob_result_post : ℕ → ℕ → Body → Requests → Requests × Result ℕ
  subjob_result_post build_id subjob_id body s =
      elim (get_slave none body.slave s.master.slave_registry) [
        | err e ↦ (s, err e)
        | ok i ↦ elim body.slave [
          | none ↦ (s, err item_not_found)
          | some url ↦ result_posted build_id subjob_id url body.file s
        ]
      ]

  unfoldable pub slaves_post : Body → Requests → Requests × Result ℕ
  slaves_post body s = elim body.num_executors [
    | none ↦ (s, err type_error)
    | some n ↦ elim body.slave [
      | none ↦ (s, err value_error)
      | some url ↦
          let (r, e) =
            connect_slave fysom now (replies (s.master.slave_id_counter + 1)) url n body.session_id
              s.master in
          (with_master s r.0, raised_or e 201)
    ]
  ]

  abbrev pub heartbeat_found : Requests → Result Slave → Requests × Result ℕ
  heartbeat_found s (err e) = (s, err e)
  heartbeat_found s (ok sl) = (with_master s (record_heartbeat now sl s.master).0, ok 200)

  unfoldable pub slaves_heartbeat_post : ℕ → Body → Requests → Requests × Result ℕ
  slaves_heartbeat_post i body s = heartbeat_found s (find_slave i s.master)

  -- After the change of state the time of the heartbeat is set, on the slave as it is then.
  abbrev pub state_updated : ℕ → Requests → ClusterMaster × Option Error → Requests × Result ℕ
  state_updated i s (m, some e) = (with_master s m, err e)
  state_updated i s (m, none) = elim (lookup i m.slaves) [
    | none ↦ (with_master s m, ok 200)
    | some sl ↦ (with_master s (record_heartbeat now sl m).0, ok 200)
  ]

  abbrev pub state_update_of : Body → Requests → Result Slave → Requests × Result ℕ
  state_update_of body s (err e) = (s, err e)
  state_update_of body s (ok sl) = state_updated sl.slave_id s (
      handle_slave_state_update fysom now "Setup failed" (replies sl.slave_id) sl body.state
        s.master)

  unfoldable pub slave_put : ℕ → Body → Requests → Requests × Result ℕ
  slave_put i body s = state_update_of body s (find_slave i s.master)

  unfoldable pub slave_shutdown_post : ℕ → Body → Requests → Requests × Result ℕ
  slave_shutdown_post i body s =
      left s (set_shutdown_mode_on_slaves fysom now replies (i ∷ []) s.master) 200

  unfoldable pub slaves_shutdown_post : Body → Requests → Requests × Result ℕ
  slaves_shutdown_post body s =
      let slaves_to_shutdown =
        if body.shutdown_all then keys s.master.slave_registry.all_slaves_by_id else body.slaves in
      left s (set_shutdown_mode_on_slaves fysom now replies slaves_to_shutdown s.master) 200

  unfoldable pub handle : MasterCall → Body → Requests → Requests × Result ℕ
  handle post_build body s = builds_post body s
  handle (put_build i) body s = build_put i body s
  handle (post_result b i) body s = subjob_result_post b i body s
  handle post_slave body s = slaves_post body s
  handle (put_slave i) body s = slave_put i body s
  handle (post_slave_shutdown i) body s = slave_shutdown_post i body s
  handle post_slaves_shutdown body s = slaves_shutdown_post body s
  handle (post_heartbeat i) body s = slaves_heartbeat_post i body s

  -- A request to the master, with the checks before its handler.
  unfoldable pub serve_master :
      Library Body → String → String → MasterCall → Request → Requests → Requests × ℕ
  unfolding handle serve
  serve_master l session secret call r s =
      serve l (is_authenticated call) session secret (handle call) r s

-- The second version of the API shows pages.
module _ {A : Type 0} (l : Library A) (c : Limits) where
  unfoldable pub v2_builds_get : Option String → Option String → ClusterMaster → Result (List Build)
  unfolding get_pagination_params get_builds
  v2_builds_get offset limit m = elim (get_pagination_params l c offset limit) [
    | err e ↦ err e
    | ok (o, n) ↦ ok (get_builds (some o) (some n) m)
  ]

  unfoldable pub v2_subjobs_get :
      Option String → Option String → ℕ → ClusterMaster → Result (List Subjob)
  unfolding get_pagination_params get_subjobs get
  v2_subjobs_get offset limit build_id m = elim (get_pagination_params l c offset limit) [
    | err e ↦ err e
    | ok (o, n) ↦ elim (get build_id m.builds) [
      | err e ↦ err e
      | ok b ↦ ok (get_subjobs (some o) (some n) b)
    ]
  ]
