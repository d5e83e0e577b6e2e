-- ===== src/WebFramework/Master/Examples.antt =====
-- A heartbeat of a slave that the master does not know.
use cluster_runner_jie.Prelude.{ℕ, String, false, none, [], ◌≡◌, refl, inl}
use cluster_runner_jie.Prelude.Dict.{Dict, lookup}
use cluster_runner_jie.Errors.{item_not_found, Result, ok, err}
use cluster_runner_jie.Master.Fsm.Simple.{simple}
use cluster_runner_jie.Master.Slave.{Reply, answered}
use cluster_runner_jie.Master.Registry.{no_slaves, get_slave}
use cluster_runner_jie.Master.BuildRequest.{ProjectClass}
use cluster_runner_jie.Master.BuildRequest.Handling.{Requests}
use cluster_runner_jie.WebFramework.Master.{Body, post_heartbeat, handle, slaves_heartbeat_post}
use cluster_runner_jie.WebFramework.Master.Refusals.{refused_unchanged}

abbrev empty_body : Body
empty_body = record {
  params = [];
  slave = none;
  num_executors = none;
  session_id = none;
  state = none;
  shutdown_all = false;
  slaves = [];
  file = none;
}

abbrev no_requests : Requests
no_requests = record {
  master = record {
    slaves = [];
    slave_id_counter = 0;
    slave_registry = no_slaves;
    builds = [];
    idle_slaves = [];
    submitted = [];
  };
  build_id_counter = 0;
  request_queue = [];
  project_preparation_locks = [];
  preparations = [];
}

abbrev lower : String → String
lower name = name

abbrev construct : ProjectClass → Dict String String → Result (Unit {0})
construct c params = ok tt

abbrev replies : ℕ → Reply
replies i = answered

refused_unchanged_example : no_requests ≡ no_requests
refused_unchanged_example =
    (refused_unchanged simple 9 lower construct "/tmp/link" replies (post_heartbeat 4) empty_body
        no_requests no_requests refl).0
      item_not_found unknown (inl refl)
  where
    unknown :
        handle simple 9 lower construct "/tmp/link" replies
          (post_heartbeat 4)
          empty_body
          no_requests
        ≡ (no_requests, err item_not_found)
    unknown =
        unfold handle in unfold slaves_heartbeat_post in unfold get_slave in unfold lookup in refl
