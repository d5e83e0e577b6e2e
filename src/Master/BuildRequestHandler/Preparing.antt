-- ===== src/Master/BuildRequestHandler/Preparing.antt =====
-- Every preparation comes to an end that the rest of the master knows how to deal with.
use cluster_runner_jie.Prelude.{
  ℕ, ◌+◌, ◌≡◌, ◌⊎◌, inl, inr, refl, ap, ◌∙◌, List, [], Bool-cases, subst, true, false, ◌||◌, Option,
  none, some, String, arith, length, ◌==◌,
}
use cluster_runner_jie.Errors.{Error}
use cluster_runner_jie.Master.Fsm.{prepared, canceled, queued}
use cluster_runner_jie.Master.Fsm.Fysom.{Fysom, state_eq, state_eq→eq}
use cluster_runner_jie.Master.Build.{
  Build, Preparation, Interruption, interrupt_all, prepare, is_stopped, finish,
}
use cluster_runner_jie.Master.Build.Keeping.{mark_failed-state, mark_failed-Keeps}
use cluster_runner_jie.Master.Build.Preparing.{
  is_settled, EndsWell, prepare-EndsWell, interrupt_all-settled, interrupt_all-threads,
}
use cluster_runner_jie.Master.BuildRequestHandler.{
  Prepared, handed_on, after_preparation, handle_error, after_prepare, prepare_build_async,
}

-- How a preparation may end, for a build with `threads` postbuild threads before it, and if others
-- do `later` between the test of its state and what follows from it.
pub record IsHandled (threads : ℕ) (later : List Interruption) (r : Prepared) : Type 0 where
  pub settled : is_settled r.build.state ≡ true
  pub waiting :
      r.is_waiting ≡ true
      → ((length r.build.all_subjobs_by_id == 0) ≡ false) × (r.build.postbuild_threads ≡ threads)
  pub prepared :
      r.is_waiting ≡ false
      → r.build.state ≡ prepared
      → ((length r.build.all_subjobs_by_id == 0) ≡ true) × (r.build.postbuild_threads ≡ threads + 1)
  pub stopped :
      later ≡ []
      → is_stopped r.build ≡ true
      → (r.is_waiting ≡ false) × (r.build.postbuild_threads ≡ threads)
  pub at_most_one :
      (r.build.postbuild_threads ≡ threads)
      ⊎ ((r.build.postbuild_threads ≡ threads + 1)
          × ((length r.build.all_subjobs_by_id == 0) ≡ true))

module _ (fysom : Fysom) (str : Error → String) (later : List Interruption) where
  handed_on-IsHandled :
      (n : ℕ) (b : Build)
      → (later ≡ [] → is_stopped b ≡ false)
      → is_settled b.state ≡ true
      → b.postbuild_threads ≡ n
      → IsHandled n later (handed_on fysom str later b)
  unfolding finish
  handed_on-IsHandled n b live h t = elim (Bool-cases (length b.all_subjobs_by_id == 0)) [
    | inl e ↦ rw e (record {
      settled = h;
      waiting = λ w. absurd (ground arith);
      prepared = λ w p. (e, ground (arith, t));
      stopped = λ o s. absurd (ground (arith, live o, s));
      at_most_one = inr (ground (arith, t), e);
    })
    | inr e ↦ rw e (record {
      settled = h;
      waiting = λ w. (e, t);
      prepared = λ w p. absurd (ground arith);
      stopped = λ o s. absurd (ground (arith, live o, s));
      at_most_one = inl t;
    })
  ]

  after_preparation-IsHandled :
      (b : Build)
      → is_settled b.state ≡ true
      → IsHandled b.postbuild_threads later (after_preparation fysom str later b)
  unfolding after_preparation
  after_preparation-IsHandled b h = elim (Bool-cases (is_stopped b)) [
    | inl e ↦ rw e (record {
      settled = h;
      waiting = λ w. absurd (ground arith);
      prepared = λ w p. absurd (ground (arith, e, p));
      stopped = λ o s. (refl, refl);
      at_most_one = inl refl;
    })
    | inr e ↦
        let (h', t) = interrupt_all-settled fysom b.postbuild_threads later b h refl in
        rw e (
          handed_on-IsHandled b.postbuild_threads (interrupt_all fysom later b)
            (λ o. ap (λ l. is_stopped (interrupt_all fysom l b)) o ∙ unfold interrupt_all in e) h'
            t)
  ]

  handle_error-IsHandled :
      (now : ℕ) (e : Error) (b : Build)
      → IsHandled b.postbuild_threads later (handle_error fysom str later now e b)
  unfolding handle_error
  handle_error-IsHandled now e b =
      let c = interrupt_all fysom later b in
      ground (
        arith,
        mark_failed-state fysom now (str e) c,
        (mark_failed-Keeps fysom now (str e) c).postbuild_threads,
        interrupt_all-threads fysom later b,
        state_eq→eq b.state canceled,
      )

-- A build that has its project type, was not prepared before and is queued (or stopped already)
-- leaves the preparation as PREPARED, ERROR or CANCELED, whatever preparation raises, and whether
-- other threads cancel it or let it fail, as often as they want, before its subjobs are queued or
-- after its state was tested. If it is PREPARED it waits for slaves, or, if it has no subjobs, the
-- one thread that finishes it is started. If it is stopped neither happens, unless it was stopped
-- after that test. At most one postbuild thread is started in any case, for a build without subjobs.
pub prepare_build_async-IsHandled :
    (fysom : Fysom) (str : Error → String) (later : List Interruption) (now : ℕ) (p : Preparation)
    (b : Build)
    → b.has_project_type ≡ true
    → b.preparation_coin.is_spent ≡ false
    → (state_eq b.state queued || is_stopped b) ≡ true
    → IsHandled b.postbuild_threads later (prepare_build_async fysom str later now p b)
unfolding prepare_build_async
prepare_build_async-IsHandled fysom str later now p b has fresh h =
    by_result (prepare fysom p b) (prepare-EndsWell fysom p b has fresh h)
  where
    by_result :
        (r : Build × Option Error)
        → EndsWell fysom b.postbuild_threads r
        → IsHandled b.postbuild_threads later (after_prepare fysom str later now r)
    by_result (c, none) (settled, same) =
        subst (λ n. IsHandled n later (after_preparation fysom str later c)) same
          (after_preparation-IsHandled fysom str later c settled)
    by_result (c, some e) (underway, same) =
        subst (λ n. IsHandled n later (handle_error fysom str later now e c)) same
          (handle_error-IsHandled fysom str later now e c)
