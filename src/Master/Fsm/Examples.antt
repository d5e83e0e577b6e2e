-- ===== src/Master/Fsm/Examples.antt =====
-- The table at work.
use cluster_runner_jie.Prelude.{◌≡◌, [], ◌∷◌}
use cluster_runner_jie.Master.Fsm.{building, postbuild_tasks_complete, finished, to, events}
use cluster_runner_jie.Master.Fsm.Fysom.{declared}
use cluster_runner_jie.Master.Fsm.Trigger.{diagram, declared-events}

finish_declared : declared events building postbuild_tasks_complete ≡ to finished ∷ []
unfolding diagram
finish_declared = declared-events building postbuild_tasks_complete
