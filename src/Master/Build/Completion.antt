-- ===== src/Master/Build/Completion.antt =====
-- The reports of finished subjobs, and the build's end.
use cluster_runner_jie.Prelude.{
  ℕ, ◌+◌, ◌<◌, ◌≡◌, Bool, true, false, Option, ◌&&◌, none, some, List, [], ◌∷◌, length, ltb, ◌==◌,
  if◌then◌else◌,
}
use cluster_runner_jie.Prelude.Dict.{lookup, ℕ_eq}
use cluster_runner_jie.Errors.{Error}
use cluster_runner_jie.Util.Queue.{Queue}
use cluster_runner_jie.Master.Subjob.{Subjob}
use cluster_runner_jie.Master.Build.{Build}
use cluster_runner_jie.Master.Build.Subjobs.{
  complete_subjob, mark_subjob_complete, Payload, handle_subjob_payload,
}

abbrev pub no_error : Option Error → Bool
no_error none = true
no_error (some e) = false

-- What a slave reports: the subjob, and what it sends along.
abbrev pub Report : Type 0
Report = ℕ × Payload

abbrev pub is_readable : Report → Build → Bool
is_readable (i, p) b = no_error (handle_subjob_payload i p b).1

-- Reports of slaves, one after the other; what a report raises goes back to the slave.
unfoldable pub report_all : List Report → Build → Build
report_all [] b = b
report_all (r ∷ rs) b = report_all rs (complete_subjob r.0 r.1 b).0

-- The subjobs of the reports whose payload could be written and read when they came.
abbrev pub readable : List Report → Build → List ℕ
readable [] b = []
readable (r ∷ rs) b =
    let rest = readable rs (complete_subjob r.0 r.1 b).0 in
    if is_readable r b then r.0 ∷ rest else rest

module _ (i : ℕ) (b : Build) (q : Queue ℕ) (s : Subjob)
    (found : lookup i b.all_subjobs_by_id ≡ some s) (finished : b.finished_subjobs ≡ some q)
    (room : length q.items < q.maxsize) where
  abbrev reported : Build
  reported = (mark_subjob_complete i b).0

-- The threads that `k` more reports start, of a build with `n` reports out of `max`.
abbrev pub starts : ℕ → ℕ → ℕ → ℕ
starts n k max = if ltb 0 k && (n + k == max) then 1 else 0
