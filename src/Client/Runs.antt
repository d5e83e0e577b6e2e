-- ===== src/Client/Runs.antt =====
-- app/client/build_runner.py: what a run that returns has done.
use cluster_runner_jie.Prelude.{
  ℕ, Bool, true, Option, none, some, ◌++◌, ◌≡◌, ◌≢◌, refl, sym, ap, subst, ◌∙◌, ◌⊎◌, inl, inr,
  arith, Bool-cases, Option-cases, suc,
}
use mathlib.Core.Option.{some-injective}
use cluster_runner_jie.Errors.{Error, key_error, build_runner, Result, ok, err}
use cluster_runner_jie.Client.{
  BuildRunner, StartAnswer, refused, started, start_build, block_until_finished,
  download_and_extract_results, cancel_of, cancel_build, is_build_runner_error, Run, or_raise,
  handled, CancelAnswer, copies, after_download, after_block, after_start, run,
}
use cluster_runner_jie.Client.Polls.{
  IsKept, AnySuccess, IsEnd, poll_all-IsEnd, AnyFetched, fetch_all-AnyFetched,
}

-- The build has this id, and one call to cancel it was made, with so many retries.
abbrev pub IsCanceled : ℕ → Option ℕ → BuildRunner → BuildRunner → Type 0
IsCanceled n id b c =
    (i : ℕ) × id ≡ some i × c.cancel_requests ≡ b.cancel_requests ++ copies (suc n) i

abbrev IsHandled : ℕ → BuildRunner → BuildRunner × Result Bool → Type 0
IsHandled n b q =
    q.1 ≢ ok true × ((q.0.cancel_requests ≡ b.cancel_requests) ⊎ IsCanceled n b.build_id b q.0)

handled-IsHandled :
    (answer : CancelAnswer) (e : Error) (b : BuildRunner)
    → IsHandled answer.retries b (handled answer e b)
unfolding handled cancel_build
handled-IsHandled answer e b = elim (Bool-cases (is_build_runner_error e)) [
  | inl t ↦ rw t (go b.build_id answer)
  | inr t ↦ rw t ((λ f. absurd (ground arith)), inl refl)
]
  where
    go :
        (id : Option ℕ) (answer : CancelAnswer)
        → let q = or_raise (cancel_of id answer b) in
          q.1 ≢ ok true
          × ((q.0.cancel_requests ≡ b.cancel_requests) ⊎ IsCanceled answer.retries id b q.0)
    go none answer = ((λ f. absurd (ground arith)), inl refl)
    go (some i) answer = elim (Option-cases answer.raises) [
      | inl e ↦ rw e ((λ f. absurd (ground arith)), inr (i, refl, refl))
      | inr (x, e) ↦ rw e ((λ f. absurd (ground arith)), inr (i, refl, refl))
    ]

abbrev pub IsOutcome : Run → BuildRunner → BuildRunner → Result Bool → Type 0
IsOutcome r b c x =
    (x ≡ ok true
      → AnySuccess r.polls × AnyFetched r.fetches × c.cancel_requests ≡ b.cancel_requests)
    × ((c.cancel_requests ≡ b.cancel_requests) ⊎ IsCanceled r.cancel_answer.retries b.build_id b c)

handled-IsOutcome :
    (r : Run) (e : Error) (b d : BuildRunner)
    → IsKept b d
    → let q = handled r.cancel_answer e d in IsOutcome r b q.0 q.1
handled-IsOutcome r e b d k =
    let h = handled-IsHandled r.cancel_answer e d in
    (
      λ t. absurd (h.0 t),
      elim h.1 [
        | inl p ↦ inl (p ∙ k.1)
        | inr p ↦
            inr (
              p.0,
              sym k.0 ∙ p.1,
              p.2 ∙ ap (λ z. z ++ copies (suc r.cancel_answer.retries) p.0) k.1,
            )
      ],
    )

by_result :
    (r : Run) (b c : BuildRunner) (x : Result Bool) (q : BuildRunner × Result Bool)
    → ◌≡◌ {A = Option (BuildRunner × Result Bool)} (some q) (some (c, x))
    → IsOutcome r b q.0 q.1
    → IsOutcome r b c x
by_result r b c x q e h = subst (λ q. IsOutcome r b q.0 q.1) (some-injective q (c, x) e) h

after_download-IsOutcome :
    (r : Run) (result : Bool) (b d c : BuildRunner) (x : Result Bool)
    (download : Option (Option Error))
    → IsEnd r.polls b d (ok result)
    → (download ≡ some none → AnyFetched r.fetches)
    → after_download r.cancel_answer result d download ≡ some (c, x)
    → IsOutcome r b c x
unfolding after_download
after_download-IsOutcome r result b d c x none h f e = absurd (ground arith)
after_download-IsOutcome r result b d c x (some none) h f e =
    by_result r b c x (d, ok result) e ((λ t. (h.1 t, f refl, h.0.1)), inl h.0.1)
after_download-IsOutcome r result b d c x (some (some y)) h f e =
    by_result r b c x (handled r.cancel_answer y d) e (handled-IsOutcome r y b d h.0)

after_block-IsOutcome :
    (r : Run) (b c : BuildRunner) (x : Result Bool) (blocked : Option (BuildRunner × Result Bool))
    → ((d : BuildRunner) (y : Result Bool) → blocked ≡ some (d, y) → IsEnd r.polls b d y)
    → after_block r blocked ≡ some (c, x)
    → IsOutcome r b c x
unfolding after_block download_and_extract_results
after_block-IsOutcome r b c x none h e = absurd (ground arith)
after_block-IsOutcome r b c x (some (d, err y)) h e =
    by_result r b c x (handled r.cancel_answer y d) e
      (handled-IsOutcome r y b d (h d (err y) refl).0)
after_block-IsOutcome r b c x (some (d, ok result)) h e =
    after_download-IsOutcome r result b d c x _ (h d (ok result) refl)
      (fetch_all-AnyFetched _ r.saving r.fetches) e

-- With the id in the answer to the request in place of the runner's.
abbrev IsRunOutcome : Run → BuildRunner → BuildRunner → Result Bool → Type 0
IsRunOutcome r b c x =
    (x ≡ ok true
      → AnySuccess r.polls × AnyFetched r.fetches × c.cancel_requests ≡ b.cancel_requests)
    × ((c.cancel_requests ≡ b.cancel_requests)
        ⊎ ((i : ℕ) × r.start_answer ≡ ok (started (some i))
            × c.cancel_requests ≡ b.cancel_requests ++ copies (suc r.cancel_answer.retries) i))

unstarted :
    (r : Run) (y : Error) (b c : BuildRunner) (x : Result Bool)
    → b.build_id ≡ none
    → ◌≡◌ {A = Option (BuildRunner × Result Bool)}
        (some (handled r.cancel_answer y b))
        (some (c, x))
    → IsRunOutcome r b c x
unstarted r y b c x fresh e =
    let h =
      by_result r b c x (handled r.cancel_answer y b) e (handled-IsOutcome r y b b (refl, refl)) in
    (h.0, elim h.1 [ inl p ↦ inl p | inr p ↦ absurd (not_some p.0 (sym fresh ∙ p.1)) ])
  where
    not_some : (i : ℕ) → ◌≢◌ {A = Option ℕ} none (some i)
    not_some i e = absurd (ground arith)

by_start_answer :
    (r : Run) (b c : BuildRunner) (x : Result Bool)
    → b.build_id ≡ none
    → (a : Result StartAnswer) → r.start_answer ≡ a
    → after_start r (start_build a b) ≡ some (c, x)
    → IsRunOutcome r b c x
unfolding start_build after_start block_until_finished
by_start_answer r b c x fresh (err y) same e = unstarted r y b c x fresh e
by_start_answer r b c x fresh (ok refused) same e = unstarted r build_runner b c x fresh e
by_start_answer r b c x fresh (ok (started none)) same e = unstarted r key_error b c x fresh e
by_start_answer r b c x fresh (ok (started (some i))) same e =
    let d = record b { build_id = some i; cancels_on_teardown = true } in
    let h = after_block-IsOutcome r d c x _ (λ q y. poll_all-IsEnd _ r.polls d q y) e in
    (
      h.0,
      elim h.1 [
        | inl p ↦ inl p
        | inr p ↦ inr (p.0, same ∙ ap {B = Result StartAnswer} (λ j. ok (started j)) p.1, p.2)
      ],
    )

-- A run of a runner that has no build yet, once it returns: it gives true only if some poll was
-- answered by a build that is finished without failures, its results were fetched, and no request to
-- cancel was sent. Otherwise it cancels once at most, and only the id that the master answered to its
-- own request: the requests sent are that of the one call and its retries.
pub run_lem :
    (r : Run) (b c : BuildRunner) (x : Result Bool)
    → b.build_id ≡ none
    → run r b ≡ some (c, x)
    → (x ≡ ok true
        → AnySuccess r.polls × AnyFetched r.fetches × c.cancel_requests ≡ b.cancel_requests)
      × ((c.cancel_requests ≡ b.cancel_requests)
          ⊎ ((i : ℕ) × r.start_answer ≡ ok (started (some i))
              × c.cancel_requests ≡ b.cancel_requests ++ copies (suc r.cancel_answer.retries) i))
unfolding run
run_lem r b c x fresh e = by_start_answer r b c x fresh r.start_answer refl e
