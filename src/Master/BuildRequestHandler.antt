-- ===== src/Master/BuildRequestHandler.antt =====
-- app/master/build_request_handler.py: one round of the preparation of a build. The project lock is
-- held around it, so that preparations of builds of one project are a sequence of such rounds.
pub mod Preparing
mod Examples
use cluster_runner_jie.Prelude.{
  ℕ, Bool, true, false, Option, none, some, String, List, [], ◌∷◌, ◌++◌, length, ◌==◌,
  if◌then◌else◌,
}
use cluster_runner_jie.Errors.{Error}
use cluster_runner_jie.Master.Fsm.Fysom.{Fysom}
use cluster_runner_jie.Master.Build.{
  Build, Preparation, Interruption, interrupt_all, prepare, finish, mark_failed, is_stopped,
  is_canceled,
}

-- What the round comes to: the build, and whether it was put on `builds_waiting_for_slaves`.
pub record Prepared : Type 0 where
  pub build : Build
  pub is_waiting : Bool

-- `later` is what other threads do to the build after the first test of its state. The message of an
-- exception is a parameter.
module _ (fysom : Fysom) (str : Error → String) (later : List Interruption) where
  abbrev pub handed_on : Build → Prepared
  handed_on b =
      if length b.all_subjobs_by_id == 0
      then record { build = finish b; is_waiting = false }
      else record { build = b; is_waiting = true }

  unfoldable pub after_preparation : Build → Prepared
  unfolding finish interrupt_all
  after_preparation b =
      if is_stopped b
      then record { build = b; is_waiting = false }
      else handed_on (interrupt_all fysom later b)

  unfoldable pub handle_error : ℕ → Error → Build → Prepared
  unfolding interrupt_all
  handle_error now e b = record {
    build =
        if is_canceled b then b else mark_failed fysom now (str e) (interrupt_all fysom later b);
    is_waiting = false;
  }

  unfoldable pub after_prepare : ℕ → Build × Option Error → Prepared
  unfolding after_preparation handle_error
  after_prepare now (b, none) = after_preparation b
  after_prepare now (b, some e) = handle_error now e b

  unfoldable pub prepare_build_async : ℕ → Preparation → Build → Prepared
  unfolding prepare after_prepare
  prepare_build_async now p b = after_prepare now (prepare fysom p b)
