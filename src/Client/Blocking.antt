-- ===== src/Client/Blocking.antt =====
-- app/client/build_runner.py: how long `_block_until_finished` waits, what it shows meanwhile, and
-- what ends it.
use cluster_runner_jie.Prelude.{
  ℕ, ◌≤◌, ◌<◌, Bool, true, false, Option, none, some, String, List, [], ◌∷◌, ◌++◌, All, ◌≡◌, refl,
  sym, ap, subst, ◌∙◌, if◌then◌else◌, arith, inl, inr, Bool-cases,
}
use mathlib.Core.List.{append_assoc, append-nil}
use cluster_runner_jie.Errors.{build_runner, Result, ok, err}
use cluster_runner_jie.Master.Fsm.{
  BuildState, queued, preparing, prepared, building, finished, error, canceled,
}
use cluster_runner_jie.Master.Build.Postbuild.{no_failures, failure}
use cluster_runner_jie.Client.{
  BuildData, StatusAnswer, validate_status, status_of, BuildRunner, goes_on, ends, on_finished,
  on_building, same_details, on_status, on_answer, timeout_limit, Poll, poll_once, poll_all,
  block_until_finished,
}

-- An answer that neither ends the wait nor raises, and the details that come with it.
abbrev pub waits : BuildState → Option String → Bool
waits finished details = false
waits error details = false
waits building none = false
waits building (some d) = true
waits _ details = true

abbrev pub is_waiting_data : Option BuildState → BuildData → Bool
is_waiting_data none d = false
is_waiting_data (some s) d = waits s d.details

abbrev pub is_waiting : StatusAnswer → Bool
is_waiting (err e) = false
is_waiting (ok none) = false
is_waiting (ok (some d)) = is_waiting_data d.status d

abbrev pub shown : Option BuildState → Option String → List String
shown (some building) (some d) = d ∷ []
shown _ _ = []

abbrev pub shown_in : StatusAnswer → List String
shown_in (ok (some d)) = shown d.status d.details
shown_in _ = []

abbrev pub all_shown : List Poll → List String
all_shown [] = []
all_shown (p ∷ ps) = shown_in p.answer ++ all_shown ps

abbrev pub IsWaiting : ℕ → Poll → Type 0
IsWaiting limit p = p.now ≤ limit × is_waiting p.answer ≡ true

-- Of details one after the other, those that differ from the one before.
abbrev pub changes : Option String → List String → List String
changes last [] = []
changes last (d ∷ ds) =
    let same = changes last ds in
    let new = changes (some d) ds in if same_details last d then same else d ∷ new

notice : String → BuildRunner → BuildRunner
notice d b =
    if same_details b.last_build_status_details d
    then b
    else record b { last_build_status_details = some d; logged = b.logged ++ d ∷ [] }

notice_all : List String → BuildRunner → BuildRunner
notice_all [] b = b
notice_all (d ∷ ds) b = notice_all ds (notice d b)

on_building-notice :
    (details : Option String) (b : BuildRunner)
    → waits building details ≡ true
    → on_building details b ≡ goes_on (notice_all (shown (some building) details) b)
unfolding on_building notice notice_all
on_building-notice none b w = absurd (ground arith)
on_building-notice (some d) b w = elim (Bool-cases (same_details b.last_build_status_details d)) [
  | inl e ↦ rw e refl
  | inr e ↦ rw e refl
]

on_answer-notice :
    (s : Option BuildState) (d : BuildData) (b : BuildRunner)
    → is_waiting_data s d ≡ true
    → on_answer (status_of build_runner d s) b ≡ goes_on (notice_all (shown s d.details) b)
unfolding on_answer on_status notice_all
on_answer-notice none d b w = absurd (ground arith)
on_answer-notice (some queued) d b w = refl
on_answer-notice (some preparing) d b w = refl
on_answer-notice (some prepared) d b w = refl
on_answer-notice (some building) d b w = on_building-notice d.details b w
on_answer-notice (some finished) d b w = absurd (ground arith)
on_answer-notice (some error) d b w = absurd (ground arith)
on_answer-notice (some canceled) d b w = refl

answer-notice :
    (a : StatusAnswer) (b : BuildRunner)
    → is_waiting a ≡ true
    → on_answer (validate_status build_runner a) b ≡ goes_on (notice_all (shown_in a) b)
unfolding validate_status
answer-notice (err e) b w = absurd (ground arith)
answer-notice (ok none) b w = absurd (ground arith)
answer-notice (ok (some d)) b w = on_answer-notice d.status d b w

module _ (limit : ℕ) where
  in_time :
      (p : Poll) (b : BuildRunner)
      → p.now ≤ limit
      → poll_once limit p b ≡ on_answer (validate_status build_runner p.answer) b
  unfolding poll_once
  in_time p b l = ground (arith, l)

  late :
      (p : Poll) (b : BuildRunner) → limit < p.now → poll_once limit p b ≡ ends b (err build_runner)
  unfolding poll_once
  late p b l = ground (arith, l)

  pub ends_at :
      (p : Poll) (ps : List Poll) (b c : BuildRunner) (r : Result Bool)
      → poll_once limit p b ≡ ends c r
      → poll_all limit (p ∷ ps) b ≡ some (c, r)
  unfolding poll_all
  ends_at p ps b c r e =
      ap (λ s. elim s [ goes_on q ↦ poll_all limit ps q | ends q x ↦ some (q, x) ]) e

  goes_on_at :
      (p : Poll) (ps : List Poll) (b c : BuildRunner)
      → poll_once limit p b ≡ goes_on c
      → poll_all limit (p ∷ ps) b ≡ poll_all limit ps c
  unfolding poll_all
  goes_on_at p ps b c e =
      ap (λ s. elim s [ goes_on q ↦ poll_all limit ps q | ends q x ↦ some (q, x) ]) e

-- What a wait leaves as it was, and what it logs.
abbrev pub IsNoticed : List String → BuildRunner → BuildRunner → Type 0
IsNoticed ds b c =
    c.build_id ≡ b.build_id
    × c.cancel_requests ≡ b.cancel_requests
    × c.cancels_on_teardown ≡ b.cancels_on_teardown
    × c.reported ≡ b.reported
    × c.logged ≡ b.logged ++ changes b.last_build_status_details ds

notice-same :
    (d : String) (b : BuildRunner)
    → same_details b.last_build_status_details d ≡ true
    → notice d b ≡ b
unfolding notice
notice-same d b e = rw e refl

notice-new :
    (d : String) (b : BuildRunner)
    → same_details b.last_build_status_details d ≡ false
    → notice d b ≡ record b { last_build_status_details = some d; logged = b.logged ++ d ∷ [] }
unfolding notice
notice-new d b e = rw e refl

notice_all-IsNoticed : (ds : List String) (b : BuildRunner) → IsNoticed ds b (notice_all ds b)
unfolding notice_all
notice_all-IsNoticed [] b = (refl, refl, refl, refl, sym (append-nil b.logged))
notice_all-IsNoticed (d ∷ ds) b = elim (Bool-cases (same_details b.last_build_status_details d)) [
  | inl e ↦
      subst (λ q. IsNoticed (d ∷ ds) b (notice_all ds q)) (sym (notice-same d b e))
        (rw e (notice_all-IsNoticed ds b))
  | inr e ↦
      let c = record b { last_build_status_details = some d; logged = b.logged ++ d ∷ [] } in
      let h = notice_all-IsNoticed ds c in
      subst (λ q. IsNoticed (d ∷ ds) b (notice_all ds q)) (sym (notice-new d b e))
        (h.0, h.1, h.2, h.3, rw e (h.4 ∙ append_assoc b.logged (d ∷ []) (changes (some d) ds)))
]

notice_all-append :
    (ds es : List String) (b : BuildRunner)
    → notice_all (ds ++ es) b ≡ notice_all es (notice_all ds b)
unfolding notice_all
notice_all-append [] es b = refl
notice_all-append (d ∷ ds) es b = notice_all-append ds es (notice d b)

waits_through :
    (limit : ℕ) (before rest : List Poll) (b : BuildRunner)
    → All (IsWaiting limit) before
    → poll_all limit (before ++ rest) b ≡ poll_all limit rest (notice_all (all_shown before) b)
unfolding notice_all
waits_through limit [] rest b h = refl
waits_through limit (p ∷ before) rest b h =
    goes_on_at limit p (before ++ rest) b (notice_all (shown_in p.answer) b)
      (in_time limit p b h.0.0 ∙ answer-notice p.answer b h.0.1)
    ∙ waits_through limit before rest (notice_all (shown_in p.answer) b) h.1
    ∙ ap (poll_all limit rest) (sym (notice_all-append (shown_in p.answer) (all_shown before) b))

-- Once the runner asks `p`.
abbrev pub IsDecided : ℕ → Poll → BuildRunner → (BuildRunner → Result Bool → Type 0) → Type 0
IsDecided limit p c gives =
    (limit < p.now → gives c (err build_runner))
    × ((d : BuildData)
        → p.now ≤ limit
        → p.answer ≡ ok (some d)
        → (d.status ≡ some error → gives c (err build_runner))
          × (d.status ≡ some finished → d.result ≡ some (some no_failures) → gives c (ok true))
          × ((atoms : List String)
              → d.status ≡ some finished
              → d.result ≡ some (some failure)
              → d.failed_atoms ≡ some atoms
              → gives (record c { reported = c.reported ++ atoms }) (ok false)))

decided :
    (limit : ℕ) (p : Poll) (ps : List Poll) (c : BuildRunner)
    → IsDecided limit p c (λ q r. poll_all limit (p ∷ ps) c ≡ some (q, r))
unfolding validate_status on_answer on_status on_finished
decided limit p ps c = (
  λ l. ends_at limit p ps c c (err build_runner) (late limit p c l),
  λ d l a. (
    λ s. ends_at limit p ps c c (err build_runner) (in_time limit p c l ∙ rw (a, s) refl),
    λ s e. ends_at limit p ps c c (ok true) (in_time limit p c l ∙ rw (a, s, e) refl),
    λ atoms s e f.
        ends_at limit p ps c (record c { reported = c.reported ++ atoms }) (ok false)
          (in_time limit p c l ∙ rw (a, s, e, f) refl),
  ),
)

-- While the polls are in time, and answered by a build that is neither finished nor failed (nor
-- building without details), the runner waits; so it does for a canceled build. It logs the details
-- of a building build whenever they differ from those before. Then a poll decides: one that is late
-- and one that finds an error raise, a finished build without failures gives true, and one with
-- failures gives false after its failed atoms are reported.
pub block_until_finished_lem :
    (start : ℕ) (timeout : Option ℕ) (before : List Poll) (b : BuildRunner)
    → All (IsWaiting (timeout_limit start timeout)) before
    → (c : BuildRunner) × IsNoticed (all_shown before) b c
      × (block_until_finished start timeout before b ≡ none)
      × ((p : Poll) (ps : List Poll)
          → IsDecided
              (timeout_limit start timeout)
              p
              c
              (λ q r. block_until_finished start timeout (before ++ p ∷ ps) b ≡ some (q, r)))
unfolding block_until_finished poll_all
block_until_finished_lem start timeout before b h =
    let limit = timeout_limit start timeout in
    let c = notice_all (all_shown before) b in
    (
      c,
      notice_all-IsNoticed (all_shown before) b,
      ap (λ ps. poll_all limit ps b) (sym (append-nil before)) ∙ waits_through limit before [] b h,
      λ p ps.
          subst (λ z. IsDecided limit p c (λ q r. z ≡ some (q, r)))
            (sym (waits_through limit before (p ∷ ps) b h)) (decided limit p ps c),
    )
