-- ===== src/Client/Polls.antt =====
-- app/client/build_runner.py: what the polls and the download of a run, once they end, have seen.
use cluster_runner_jie.Prelude.{
  ℕ, Bool, true, Option, none, some, String, List, [], ◌∷◌, ◌++◌, ◌≡◌, refl, ap, subst, ◌∙◌, inl,
  inr, arith, leb, ◌==◌, Bool-cases,
}
use mathlib.Core.Option.{some-injective}
use cluster_runner_jie.Errors.{Error, build_runner, Result, ok, err}
use cluster_runner_jie.Master.Fsm.{
  BuildState, queued, preparing, prepared, building, finished, error, canceled,
}
use cluster_runner_jie.Master.Build.Postbuild.{BuildResult, no_failures, failure}
use cluster_runner_jie.Client.{
  BuildData, StatusAnswer, validate_status, status_of, BuildRunner, Step, goes_on, ends,
  on_finished, on_building, same_details, on_status, on_answer, Poll, poll_once, poll_all, Fetch,
  fetched, fetch_all,
}

-- The answer shows a build that is finished without failures.
abbrev pub IsSuccess : StatusAnswer → Type 0
IsSuccess a =
    (d : BuildData) × a ≡ ok (some d)
    × d.status ≡ some finished
    × d.result ≡ some (some no_failures)

-- The parts of a runner that no poll changes.
abbrev pub IsKept : BuildRunner → BuildRunner → Type 0
IsKept b c = c.build_id ≡ b.build_id × c.cancel_requests ≡ b.cancel_requests

-- What one poll may come to.
abbrev IsStep : (Type 0) → BuildRunner → Step → Type 0
IsStep P b (goes_on c) = IsKept b c
IsStep P b (ends c r) = IsKept b c × (r ≡ ok true → P)

on_finished-IsStep :
    (result : Option (Option BuildResult)) (atoms : Option (List String)) (b : BuildRunner)
    → IsStep (result ≡ some (some no_failures)) b (on_finished result atoms b)
unfolding on_finished
on_finished-IsStep none atoms b = ((refl, refl), λ e. absurd (ground arith))
on_finished-IsStep (some (some no_failures)) atoms b = ((refl, refl), λ e. refl)
on_finished-IsStep (some (some failure)) none b = ((refl, refl), λ e. absurd (ground arith))
on_finished-IsStep (some (some failure)) (some atoms) b = ((refl, refl), λ e. absurd (ground arith))
on_finished-IsStep (some none) none b = ((refl, refl), λ e. absurd (ground arith))
on_finished-IsStep (some none) (some atoms) b = ((refl, refl), λ e. absurd (ground arith))

on_building-IsStep :
    (P : Type 0) (details : Option String) (b : BuildRunner) → IsStep P b (on_building details b)
unfolding on_building
on_building-IsStep P none b = ((refl, refl), λ e. absurd (ground arith))
on_building-IsStep P (some d) b = elim (Bool-cases (same_details b.last_build_status_details d)) [
  | inl e ↦ rw e (refl, refl)
  | inr e ↦ rw e (refl, refl)
]

weaken : (P Q : Type 0) (b : BuildRunner) (s : Step) → (P → Q) → IsStep P b s → IsStep Q b s
weaken P Q b (goes_on c) f h = h
weaken P Q b (ends c r) f h = (h.0, λ e. f (h.1 e))

on_answer-IsStep :
    (s : Option BuildState) (d : BuildData) (b : BuildRunner)
    → IsStep
        (s ≡ some finished × d.result ≡ some (some no_failures))
        b
        (on_answer (status_of build_runner d s) b)
unfolding on_answer on_status
on_answer-IsStep none d b = ((refl, refl), λ e. absurd (ground arith))
on_answer-IsStep (some queued) d b = (refl, refl)
on_answer-IsStep (some preparing) d b = (refl, refl)
on_answer-IsStep (some prepared) d b = (refl, refl)
on_answer-IsStep (some building) d b = on_building-IsStep _ d.details b
on_answer-IsStep (some finished) d b =
    weaken _ _ b (on_finished d.result d.failed_atoms b) (λ p. (refl, p))
      (on_finished-IsStep d.result d.failed_atoms b)
on_answer-IsStep (some error) d b = ((refl, refl), λ e. absurd (ground arith))
on_answer-IsStep (some canceled) d b = (refl, refl)

answer-IsStep :
    (a : StatusAnswer) (b : BuildRunner)
    → IsStep (IsSuccess a) b (on_answer (validate_status build_runner a) b)
unfolding validate_status on_answer
answer-IsStep (err e) b = ((refl, refl), λ e. absurd (ground arith))
answer-IsStep (ok none) b = ((refl, refl), λ e. absurd (ground arith))
answer-IsStep (ok (some d)) b =
    weaken _ _ b (on_answer (status_of build_runner d d.status) b) (λ p. (d, refl, p.0, p.1))
      (on_answer-IsStep d.status d b)

poll_once-IsStep :
    (limit : ℕ) (p : Poll) (b : BuildRunner) → IsStep (IsSuccess p.answer) b (poll_once limit p b)
unfolding poll_once
poll_once-IsStep limit p b = elim (Bool-cases (leb p.now limit)) [
  | inl e ↦ rw e (answer-IsStep p.answer b)
  | inr e ↦ rw e ((refl, refl), λ x. absurd (ground arith))
]

-- Among the polls is one whose answer shows success.
abbrev pub AnySuccess : List Poll → Type 0
AnySuccess ps =
    (before : List Poll) × (p : Poll) × (rest : List Poll) × ps ≡ before ++ p ∷ rest
    × IsSuccess p.answer

abbrev pub IsEnd : List Poll → BuildRunner → BuildRunner → Result Bool → Type 0
IsEnd ps b c r = IsKept b c × (r ≡ ok true → AnySuccess ps)

later :
    (p : Poll) (ps : List Poll) (b d c : BuildRunner) (r : Result Bool)
    → IsKept b d
    → IsEnd ps d c r
    → IsEnd (p ∷ ps) b c r
later p ps b d c r k h = (
  (h.0.0 ∙ k.0, h.0.1 ∙ k.1),
  λ e. let (before, q, rest, same, s) = h.1 e in (p ∷ before, q, rest, ap (λ z. p ∷ z) same, s),
)

pub poll_all-IsEnd :
    (limit : ℕ) (ps : List Poll) (b c : BuildRunner) (r : Result Bool)
    → poll_all limit ps b ≡ some (c, r)
    → IsEnd ps b c r
unfolding poll_all
poll_all-IsEnd limit [] b c r e = absurd (ground arith)
poll_all-IsEnd limit (p ∷ ps) b c r e =
    go (poll_once limit p b) (poll_once-IsStep limit p b) (λ d f. poll_all-IsEnd limit ps d c r f) e
  where
    go :
        (s : Step)
        → IsStep (IsSuccess p.answer) b s
        → ((d : BuildRunner) → poll_all limit ps d ≡ some (c, r) → IsEnd ps d c r)
        → elim s [ goes_on d ↦ poll_all limit ps d | ends d x ↦ some (d, x) ] ≡ some (c, r)
        → IsEnd (p ∷ ps) b c r
    go (goes_on d) k ih e = later p ps b d c r k (ih d e)
    go (ends d x) k ih e =
        subst (λ q. IsEnd (p ∷ ps) b q.0 q.1) (some-injective (d, x) (c, r) e)
          (k.0, λ f. ([], p, ps, refl, k.1 f))

-- Some answer has the code 200.
abbrev pub AnyFetched : List Fetch → Type 0
AnyFetched fs =
    (before : List Fetch) × (f : Fetch) × (rest : List Fetch) × fs ≡ before ++ f ∷ rest
    × f.status_code ≡ ok 200

pub fetch_all-AnyFetched :
    (limit : ℕ) (saving : Option Error) (fs : List Fetch)
    → fetch_all limit saving fs ≡ some none
    → AnyFetched fs
unfolding fetch_all
fetch_all-AnyFetched limit saving [] e = absurd (ground arith)
fetch_all-AnyFetched limit saving (f ∷ fs) e = elim (Bool-cases (leb f.now limit)) [
  | inl l ↦ go f.status_code refl (fetch_all-AnyFetched limit saving fs) (ground (arith, e, l))
  | inr l ↦ absurd (ground (arith, e, l))
]
  where
    go :
        (code : Result ℕ)
        → f.status_code ≡ code
        → (fetch_all limit saving fs ≡ some none → AnyFetched fs)
        → fetched saving code (fetch_all limit saving fs) ≡ some none
        → AnyFetched (f ∷ fs)
    go (err x) same ih q = absurd (ground arith)
    go (ok n) same ih q = elim (Bool-cases (n == 200)) [
      | inl t ↦ ([], f, fs, refl, same ∙ ap {B = Result ℕ} ok (ground (arith, t)))
      | inr t ↦
          let (before, g, rest, eq, h) = ih (ground (arith, q, t)) in
          (f ∷ before, g, rest, ap (λ z. f ∷ z) eq, h)
    ]
