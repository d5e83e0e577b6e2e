-- ===== src/Client.antt =====
-- app/client/build_runner.py: the runner of one build, with the test of an answer that
-- cluster_api_client.py makes too. What the master answers, and the clock, are given with each call.
pub mod Blocking
pub mod Polls
pub mod Runs
mod Examples
use cluster_runner_jie.Prelude.{
  ℕ, zero, suc, ◌+◌, ◌-◌, Bool, true, false, Option, none, some, String, List, [], ◌∷◌, ◌++◌, leb,
  ◌==◌, if◌then◌else◌,
}
use cluster_runner_jie.Prelude.Dict.{String_eq}
use cluster_runner_jie.Errors.{Error, key_error, build_runner, Result, ok, err}
use cluster_runner_jie.Master.Fsm.{
  BuildState, queued, preparing, prepared, building, finished, error, canceled,
}
use cluster_runner_jie.Master.Build.Postbuild.{BuildResult, no_failures, failure}

-- The object "build" of an answer; `none` is a key that is missing, and a result may be null.
pub record BuildData : Type 0 where
  pub status : Option BuildState
  pub result : Option (Option BuildResult)
  pub failed_atoms : Option (List String)
  pub details : Option String

-- The answer to a request for the status of a build, without the object if that is missing.
abbrev pub StatusAnswer : Type 0
StatusAnswer = Result (Option BuildData)

abbrev pub status_of : Error → BuildData → Option BuildState → Result (BuildState × BuildData)
status_of e d none = err e
status_of e d (some s) = ok (s, d)

-- The test that both clients make, with the error that each raises.
unfoldable pub validate_status : Error → StatusAnswer → Result (BuildState × BuildData)
validate_status e (err x) = err x
validate_status e (ok none) = err e
validate_status e (ok (some d)) = status_of e d d.status

-- Of the messages, the details of the build and its failed atoms; and the requests that cancel.
pub record BuildRunner : Type 0 where
  pub build_id : Option ℕ
  pub last_build_status_details : Option String
  pub logged : List String
  pub reported : List String
  pub cancels_on_teardown : Bool
  pub cancel_requests : List ℕ

abbrev pub new_runner : BuildRunner
new_runner = record {
  build_id = none;
  last_build_status_details = none;
  logged = [];
  reported = [];
  cancels_on_teardown = false;
  cancel_requests = [];
}

-- The answer to a request for a build: an error, or the id, if it has one.
pub data StartAnswer : Type 0 where
  refused : StartAnswer
  started : Option ℕ → StartAnswer

unfoldable pub start_build : Result StartAnswer → BuildRunner → BuildRunner × Option Error
start_build (err e) b = (b, some e)
start_build (ok refused) b = (b, some build_runner)
start_build (ok (started none)) b = (b, some key_error)
start_build (ok (started (some i))) b =
    (record b { build_id = some i; cancels_on_teardown = true }, none)

-- One poll either goes on or ends the wait.
pub data Step : Type 0 where
  goes_on : BuildRunner → Step
  ends : BuildRunner → Result Bool → Step

unfoldable pub on_finished : Option (Option BuildResult) → Option (List String) → BuildRunner → Step
on_finished none atoms b = ends b (err key_error)
on_finished (some (some no_failures)) atoms b = ends b (ok true)
on_finished (some _) none b = ends b (err key_error)
on_finished (some _) (some atoms) b = ends (record b { reported = b.reported ++ atoms }) (ok false)

abbrev pub same_details : Option String → String → Bool
same_details none d = false
same_details (some c) d = String_eq.beq d c

unfoldable pub on_building : Option String → BuildRunner → Step
on_building none b = ends b (err key_error)
on_building (some d) b =
    if same_details b.last_build_status_details d
    then goes_on b
    else goes_on (record b { last_build_status_details = some d; logged = b.logged ++ d ∷ [] })

unfoldable pub on_status : BuildState → BuildData → BuildRunner → Step
on_status finished d b = on_finished d.result d.failed_atoms b
on_status error d b = ends b (err build_runner)
on_status building d b = on_building d.details b
on_status queued d b = goes_on b
on_status preparing d b = goes_on b
on_status prepared d b = goes_on b
on_status canceled d b = goes_on b

unfoldable pub on_answer : Result (BuildState × BuildData) → BuildRunner → Step
on_answer (err e) b = ends b (err e)
on_answer (ok (s, d)) b = on_status s d b

-- `sys.maxsize` stands for no timeout, and 0 counts as none.
abbrev pub maxsize : ℕ
maxsize = 9223372036854775807

abbrev pub timeout_limit : ℕ → Option ℕ → ℕ
timeout_limit start none = maxsize
timeout_limit start (some t) = if t == 0 then maxsize else start + t

-- What the clock says before a round, and the answer in it.
pub record Poll : Type 0 where
  pub now : ℕ
  pub answer : StatusAnswer

unfoldable pub poll_once : ℕ → Poll → BuildRunner → Step
poll_once limit p b =
    if leb p.now limit
    then on_answer (validate_status build_runner p.answer) b
    else ends b (err build_runner)

-- The rounds of the loop: `none` while the runner still waits.
unfoldable pub poll_all : ℕ → List Poll → BuildRunner → Option (BuildRunner × Result Bool)
poll_all limit [] b = none
poll_all limit (p ∷ ps) b = elim (poll_once limit p b) [
  | goes_on c ↦ poll_all limit ps c
  | ends c r ↦ some (c, r)
]

unfoldable pub block_until_finished :
    ℕ → Option ℕ → List Poll → BuildRunner → Option (BuildRunner × Result Bool)
block_until_finished start timeout ps b = poll_all (timeout_limit start timeout) ps b

-- A round of the download: the clock, and the status code of the answer.
pub record Fetch : Type 0 where
  pub now : ℕ
  pub status_code : Result ℕ

-- `saving` is what comes of writing and extracting the file.
abbrev pub fetched : Option Error → Result ℕ → Option (Option Error) → Option (Option Error)
fetched saving (err e) rest = some (some e)
fetched saving (ok code) rest = if code == 200 then some saving else rest

unfoldable pub fetch_all : ℕ → Option Error → List Fetch → Option (Option Error)
fetch_all limit saving [] = none
fetch_all limit saving (f ∷ fs) =
    let rest = fetch_all limit saving fs in
    if leb f.now limit then fetched saving f.status_code rest else some (some build_runner)

unfoldable pub download_and_extract_results :
    ℕ → Option ℕ → Option Error → List Fetch → Option (Option Error)
download_and_extract_results start timeout saving fs =
    fetch_all (timeout_limit start timeout) saving fs

-- What comes of the call that cancels: `Network.put` is tried again when the connection fails, so
-- that the master may get the request several times; in the end it may raise.
pub record CancelAnswer : Type 0 where
  pub retries : ℕ
  pub raises : Option Error

abbrev pub copies : ℕ → ℕ → List ℕ
copies zero i = []
copies (suc n) i = i ∷ copies n i

abbrev pub cancel_of : Option ℕ → CancelAnswer → BuildRunner → BuildRunner × Option Error
cancel_of none answer b = (b, none)
cancel_of (some i) answer b = (
  record b { cancel_requests = b.cancel_requests ++ copies (suc answer.retries) i },
  answer.raises,
)

unfoldable pub cancel_build : CancelAnswer → BuildRunner → BuildRunner × Option Error
cancel_build answer b = cancel_of b.build_id answer b

abbrev pub is_build_runner_error : Error → Bool
is_build_runner_error build_runner = true
is_build_runner_error _ = false

-- What the master and the clock do in a run.
pub record Run : Type 0 where
  pub start_answer : Result StartAnswer
  pub polls : List Poll
  pub fetches : List Fetch
  pub saving : Option Error
  pub cancel_answer : CancelAnswer

abbrev pub or_raise : BuildRunner × Option Error → BuildRunner × Result Bool
or_raise (b, none) = (b, ok false)
or_raise (b, some e) = (b, err e)

-- The handler of `_BuildRunnerError` around the body of `run`.
unfoldable pub handled : CancelAnswer → Error → BuildRunner → BuildRunner × Result Bool
handled answer e b =
    if is_build_runner_error e then or_raise (cancel_build answer b) else (b, err e)

unfoldable pub after_download :
    CancelAnswer → Bool → BuildRunner → Option (Option Error) → Option (BuildRunner × Result Bool)
after_download answer result b none = none
after_download answer result b (some none) = some (b, ok result)
after_download answer result b (some (some e)) = some (handled answer e b)

unfoldable pub after_block :
    Run → Option (BuildRunner × Result Bool) → Option (BuildRunner × Result Bool)
after_block r none = none
after_block r (some (b, err e)) = some (handled r.cancel_answer e b)
after_block r (some (b, ok result)) =
    after_download r.cancel_answer result b (download_and_extract_results 0 none r.saving r.fetches)

unfoldable pub after_start : Run → BuildRunner × Option Error → Option (BuildRunner × Result Bool)
after_start r (b, some e) = some (handled r.cancel_answer e b)
after_start r (b, none) = after_block r (block_until_finished 0 none r.polls b)

unfoldable pub run : Run → BuildRunner → Option (BuildRunner × Result Bool)
run r b = after_start r (start_build r.start_answer b)
