-- ===== src/Master/Build/Subjobs.antt =====
-- app/master/build.py: what a build does with the results of its subjobs.
use cluster_runner_jie.Prelude.{ℕ, ◌+◌, not, ◌&&◌, Option, none, some, List, [], ◌∷◌, if◌then◌else◌}
use cluster_runner_jie.Prelude.Int.{ℤ}
use cluster_runner_jie.Prelude.Dict.{lookup, insert, ℕ_eq}
use cluster_runner_jie.Errors.{Error, exception, queue_full, item_not_found, Result, ok, err}
use cluster_runner_jie.Util.Queue
use cluster_runner_jie.Util.Queue.{Queue}
use cluster_runner_jie.Master.Subjob.{Atom, Subjob, mark_completed}
use cluster_runner_jie.Master.Build.{Build, is_stopped, finish}

-- The files that hold the exit codes of a subjob's atoms: reading one may raise.
abbrev pub ExitCodes : Type 0
ExitCodes = ℕ → Result ℤ

-- What a slave sent along: nothing, or an archive, with what writing and extracting it raises.
pub data Payload : Type 0 where
  no_payload : Payload
  payload : Option Error → ExitCodes → Payload

abbrev pub with_code :
    Result ℤ → Atom → List Atom → List Atom × Option Error → List Atom × Option Error
with_code (err e) a as' rest = (a ∷ as', some e)
with_code (ok c) a as' (rest, e) = (record a { exit_code = some c } ∷ rest, e)

-- The loop over `range(len(subjob.atoms))`: atoms before one that cannot be read keep their codes.
unfoldable pub parse_exit_codes : ExitCodes → ℕ → List Atom → List Atom × Option Error
parse_exit_codes codes i [] = ([], none)
parse_exit_codes codes i (a ∷ as') = with_code (codes i) a as' (parse_exit_codes codes (i + 1) as')

abbrev pub put_subjob : ℕ → Subjob → Build → Build
put_subjob i s b = record b { all_subjobs_by_id = insert i s b.all_subjobs_by_id }

unfoldable pub parse_payload : ExitCodes → ℕ → Option Subjob → Build → Build × Option Error
unfolding parse_exit_codes
parse_payload codes i none b = (b, some item_not_found)
parse_payload codes i (some s) b =
    let (atoms, e) = parse_exit_codes codes 0 s.atoms in
    (put_subjob i (record s { atoms = atoms }) b, e)

unfoldable pub handle_subjob_payload : ℕ → Payload → Build → Build × Option Error
unfolding parse_payload
handle_subjob_payload i no_payload b = (b, none)
handle_subjob_payload i (payload (some e) codes) b = (b, some e)
handle_subjob_payload i (payload none codes) b =
    parse_payload codes i (lookup i b.all_subjobs_by_id) b

-- Under the completion lock: a full queue starts the postbuild tasks, once.
unfoldable pub record_finished : Queue ℕ → Build → Build
unfolding finish
record_finished q b =
    let b' = record b { finished_subjobs = some q } in
    if Queue.full q && not (is_stopped b') then finish b' else b'

unfoldable pub put_finished : ℕ → Option (Queue ℕ) → Build → Build × Option Error
unfolding record_finished
put_finished i none b = (b, some exception)
put_finished i (some q) b = elim (Queue.put i q) [
  | none ↦ (b, some queue_full)
  | some q' ↦ (record_finished q' b, none)
]

unfoldable pub mark_found_complete : ℕ → Option Subjob → Build → Build × Option Error
unfolding put_finished
mark_found_complete i none b = (b, some item_not_found)
mark_found_complete i (some s) b =
    put_finished i b.finished_subjobs (put_subjob i (mark_completed s) b)

unfoldable pub mark_subjob_complete : ℕ → Build → Build × Option Error
unfolding mark_found_complete
mark_subjob_complete i b = mark_found_complete i (lookup i b.all_subjobs_by_id) b

abbrev and_then : Build × Option Error → (Build → Build × Option Error) → Build × Option Error
and_then (b, none) f = f b
and_then (b, some e) f = (b, some e)

unfoldable pub complete_subjob : ℕ → Payload → Build → Build × Option Error
unfolding handle_subjob_payload mark_subjob_complete
complete_subjob i p b = and_then (handle_subjob_payload i p b) (mark_subjob_complete i)
