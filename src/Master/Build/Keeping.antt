-- ===== src/Master/Build/Keeping.antt =====
-- What the events leave of a build, and the event FAIL.
use cluster_runner_jie.Prelude.{
  ℕ, ◌≡◌, refl, ap, ◌∙◌, inl, inr, Option, none, some, String, arith, Bool-cases,
}
use cluster_runner_jie.Master.Fsm.{
  BuildState, queued, preparing, prepared, building, finished, error, canceled, BuildEvent,
  start_prepare, finish_prepare, start_building, postbuild_tasks_complete, fail, Target, to, same,
}
use cluster_runner_jie.Master.Fsm as Fsm
use cluster_runner_jie.Master.Fsm.Fysom.{Fysom, state_eq}
use cluster_runner_jie.Master.Fsm.Trigger.{diagram-fail, diagram, transition_error}
use cluster_runner_jie.Master.Build.{Build, trigger_at, mark_failed, cancel}
use cluster_runner_jie.Master.Build.States.{
  arrive, moved, outcome_of, next, trigger_at-outcome, trigger_at-state,
}

-- What no event touches.
pub record Keeps (b c : Build) : Type 0 where
  pub build_id : c.build_id ≡ b.build_id
  pub preparation_coin : c.preparation_coin ≡ b.preparation_coin
  pub has_project_type : c.has_project_type ≡ b.has_project_type
  pub all_subjobs_by_id : c.all_subjobs_by_id ≡ b.all_subjobs_by_id
  pub finished_subjobs : c.finished_subjobs ≡ b.finished_subjobs
  pub postbuild_threads : c.postbuild_threads ≡ b.postbuild_threads
  pub postbuild_tasks_are_finished : c.postbuild_tasks_are_finished ≡ b.postbuild_tasks_are_finished
  pub failed_pairs : c.failed_pairs ≡ b.failed_pairs
  pub setup_failures : c.setup_failures ≡ b.setup_failures

Keeps-refl : (b : Build) → Keeps b b
Keeps-refl b = record {
  build_id = refl;
  preparation_coin = refl;
  has_project_type = refl;
  all_subjobs_by_id = refl;
  finished_subjobs = refl;
  postbuild_threads = refl;
  postbuild_tasks_are_finished = refl;
  failed_pairs = refl;
  setup_failures = refl;
}

Keeps-moved :
    (now : ℕ) (msg : Option String) (dst : BuildState) (b : Build) → Keeps b (moved now msg dst b)
unfolding moved
Keeps-moved now msg queued b = ground arith
Keeps-moved now msg _ b = ground arith

Keeps-arrive :
    (now : ℕ) (msg : Option String) (d : Target) (b : Build) → Keeps b (arrive now msg d b)
unfolding arrive
Keeps-arrive now msg same b = Keeps-refl b
Keeps-arrive now msg (to dst) b = elim (Bool-cases (state_eq b.state dst)) [
  | inl here ↦ rw here (Keeps-refl b)
  | inr there ↦ rw there (Keeps-moved now msg dst b)
]

Keeps-outcome_of :
    (now : ℕ) (msg : Option String) (b : Build) (t : Option Target)
    → Keeps b (outcome_of now msg b t)
Keeps-outcome_of now msg b none = Keeps-arrive now (some transition_error) (to error) b
Keeps-outcome_of now msg b (some d) = Keeps-arrive now msg d b

pub trigger_at-Keeps :
    (fysom : Fysom) (now : ℕ) (e : BuildEvent) (msg : Option String) (b : Build)
    → Keeps b (trigger_at fysom now e msg b)
trigger_at-Keeps fysom now e msg b =
    rw (trigger_at-outcome fysom now e msg b) (Keeps-outcome_of now msg b (diagram b.state e))

-- FAIL moves a build to ERROR from every state.
pub mark_failed-state :
    (fysom : Fysom) (now : ℕ) (reason : String) (b : Build)
    → (mark_failed fysom now reason b).state ≡ error
unfolding mark_failed
mark_failed-state fysom now reason b =
    trigger_at-state fysom now fail (some reason) b ∙ ap (next b.state) (diagram-fail b.state)

pub mark_failed-Keeps :
    (fysom : Fysom) (now : ℕ) (reason : String) (b : Build)
    → Keeps b (mark_failed fysom now reason b)
unfolding mark_failed
mark_failed-Keeps fysom now reason b = trigger_at-Keeps fysom now fail (some reason) b

pub cancel-Keeps : (fysom : Fysom) (now : ℕ) (b : Build) → Keeps b (cancel fysom now b)
unfolding cancel
cancel-Keeps fysom now b = trigger_at-Keeps fysom now Fsm.cancel none b
