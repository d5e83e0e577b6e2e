-- ===== src/ProjectType.antt =====
-- app/project_type/project_type.py: how commands of a project are run, waited for and stopped. What
-- the processes and the clock do is given with each call.
pub mod Waiting
pub mod Git
mod Examples
use cluster_runner_jie.Prelude.{
  ℕ, zero, suc, ◌+◌, Bool, true, false, not, ◌&&◌, ◌||◌, Option, none, some, String, List, [], ◌∷◌,
  leb, if◌then◌else◌, ◌==◌,
}
use cluster_runner_jie.Prelude.Int.{ℤ, pos, negsuc, eqb_ℤ}
use cluster_runner_jie.Prelude.Dict.{Dict, String_eq}
use cluster_runner_jie.Common.BuildArtifact.{update}
use cluster_runner_jie.Errors.{
  Error, runtime_error, setup_failure, teardown_failure, Result, ok, err,
}

-- What `pipe.wait(timeout=1)` comes to.
pub data Wait : Type 0 where
  finished expired raised : Wait

-- One round of the loop: what the kill event and the clock say before it, and the wait.
pub record Round : Type 0 where
  pub is_killed : Bool
  pub now : ℕ
  pub wait : Wait

-- A timeout of 0 counts as none.
abbrev pub timeout_time : ℕ → Option ℕ → Option ℕ
timeout_time start none = none
timeout_time start (some t) = if t == 0 then none else some (start + t)

abbrev pub is_late : Option ℕ → ℕ → Bool
is_late none now = false
is_late (some t) now = leb t now

-- Whether the command completed, and how many messages were added; `none` while it still waits.
unfoldable pub wait_rounds : Option ℕ → List Round → Option (Bool × ℕ)
wait_rounds deadline [] = none
wait_rounds deadline (r ∷ rs) =
    let rest = wait_rounds deadline rs in
    if r.is_killed || is_late deadline r.now
    then some (false, 0)
    else elim r.wait [ finished ↦ some (true, 0) | expired ↦ rest | raised ↦ some (false, 1) ]

-- What came of waiting: whether the process group was sent a signal, whether the call returns, and
-- the messages.
pub record Waited : Type 0 where
  pub is_signalled : Bool
  pub returns : Bool
  pub messages : ℕ

-- What comes of the wait for the process that was sent the signal: it has no timeout, and does not
-- return if the process goes on.
pub data LastWait : Type 0 where
  returned raised_last never_returned : LastWait

-- That sending the signal may fail is caught.
abbrev pub after_rounds : LastWait → Bool × ℕ → Waited
after_rounds last_wait (true, n) = record { is_signalled = false; returns = true; messages = n }
after_rounds returned (false, n) = record { is_signalled = true; returns = true; messages = n }
after_rounds raised_last (false, n) = record {
  is_signalled = true;
  returns = true;
  messages = suc n;
}
after_rounds never_returned (false, n) = record {
  is_signalled = true;
  returns = false;
  messages = n;
}

abbrev pub ended : LastWait → Option (Bool × ℕ) → Option Waited
ended last_wait none = none
ended last_wait (some r) = some (after_rounds last_wait r)

unfoldable pub wait_for_pipe_to_close : ℕ → Option ℕ → List Round → LastWait → Option Waited
wait_for_pipe_to_close start timeout rounds last_wait =
    ended last_wait (wait_rounds (timeout_time start timeout) rounds)

-- A missing exit code is -1.
abbrev pub as_exit_code : Option ℤ → ℤ
as_exit_code none = negsuc 0
as_exit_code (some i) = i

-- A run of a command: its console output and its return code, if it has one.
pub record Process : Type 0 where
  pub rounds : List Round
  pub last_wait : LastWait
  pub console_output : String
  pub returncode : Option ℤ

-- The output, the number of messages that are added to it, and the exit code.
unfoldable pub execute_command_in_project : ℕ → Option ℕ → Process → Option (String × ℕ × ℤ)
unfolding wait_for_pipe_to_close
execute_command_in_project start timeout p =
    elim (wait_for_pipe_to_close start timeout p.rounds p.last_wait) [
      | none ↦ none
      | some w ↦
          if w.returns then some (p.console_output, w.messages, as_exit_code p.returncode) else none
    ]

abbrev pub succeeded : ℤ → Bool
succeeded i = eqb_ℤ i (pos 0)

-- An intentionally killed command does not raise.
unfoldable pub execute_and_raise_on_failure : String × ℤ → Bool → Result String
execute_and_raise_on_failure (output, exit_code) is_killed =
    if not (succeeded exit_code) && not is_killed then err runtime_error else ok output

-- The section of the job configuration, if it is there and not empty, and what its command exits
-- with.
abbrev pub run_section : Option String → (String → ℤ) → Error → Result (Unit {0})
run_section none exits e = ok tt
run_section (some command) exits e =
    if String_eq.beq command "" || succeeded (exits command) then ok tt else err e

unfoldable pub run_job_config_setup : Option String → (String → ℤ) → Result (Unit {0})
run_job_config_setup setup_build exits = run_section setup_build exits setup_failure

unfoldable pub run_job_config_teardown : Option String → (String → ℤ) → Result (Unit {0})
run_job_config_teardown teardown_build exits = run_section teardown_build exits teardown_failure

-- Remote files are fetched one after the other, up to the first that fails: how many were run, and
-- whether all succeeded.
unfoldable pub run_remote_file_setup :
    (String × String → ℤ) → Dict String String → ℕ × Result (Unit {0})
run_remote_file_setup exits [] = (0, ok tt)
run_remote_file_setup exits (file ∷ files) =
    let (n, r) = run_remote_file_setup exits files in
    if succeeded (exits file) then (suc n, r) else (1, err runtime_error)

-- The variables of a command's environment, in the order in which they are exported.
unfoldable pub environment_vars : String → Option (Dict String String) → Dict String String
unfolding update
environment_vars project_directory none = ("PROJECT_DIR", project_directory) ∷ []
environment_vars project_directory (some extra) =
    update (("PROJECT_DIR", project_directory) ∷ []) extra
