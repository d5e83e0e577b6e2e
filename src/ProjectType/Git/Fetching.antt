-- ===== src/ProjectType/Git/Fetching.antt =====
-- What has been done when a project was fetched.
use cluster_runner_jie.Prelude.{
  true, false, not, ◌&&◌, some, String, List, [], ◌∷◌, ◌++◌, ◌≡◌, refl, sym, ◌∙◌, ap, arith, ◌⊎◌,
  inl, inr, Bool-cases,
}
use cluster_runner_jie.Prelude.Int.{pos}
use cluster_runner_jie.Errors.{ok}
use mathlib.Core.List.{append_assoc}
use cluster_runner_jie.ProjectType.{succeeded}
use cluster_runner_jie.ProjectType.Git.{
  Action, rev_parse, clone, fetch, rev_parse_fetch_head, update_ref, reset_hard, clean, World, Git,
  M, ◌>>=◌, or_on_failure, set_local_ref, note, execute_git_command, made_anew, reset_to,
  fetch_project,
}

module _ (w : World) where
  -- The command succeeded, or was killed on purpose.
  abbrev pub Passed : List Action → Action → Type 0
  Passed history a = (w.exit_code history a ≡ pos 0) ⊎ (w.is_killed (history ++ a ∷ []) ≡ true)

  abbrev pub AllPassed : List Action → List Action → Type 0
  AllPassed history [] = Unit
  AllPassed history (a ∷ actions) = Passed history a × AllPassed (history ++ a ∷ []) actions

  abbrev after : Action → Git → Git
  after a g = record g { history = g.history ++ a ∷ [] }

  -- A command that does not raise, and what follows it.
  then-eq-ok :
      {B : Type 0} (a : Action) (f : String → M B) (g : Git) {g' : Git} {b : B}
      → (execute_git_command w a >>= f) g ≡ (g', ok b)
      → Passed g.history a × (f (w.output g.history a) (after a g) ≡ (g', ok b))
  unfolding execute_git_command
  then-eq-ok a f g e = ground arith

  -- The repository is there, or it is not: then it is cloned.
  abbrev pub Started : List Action → List Action → Type 0
  Started history start =
      (start ≡ rev_parse ∷ [] × Passed history rev_parse)
      ⊎ (start ≡ rev_parse ∷ clone w.shallow_clones ∷ []
          × succeeded (w.exit_code history rev_parse) ≡ false
          × w.is_killed (history ++ rev_parse ∷ []) ≡ false
          × Passed (history ++ rev_parse ∷ []) (clone w.shallow_clones))

  abbrev extended : Git → List Action → Git
  extended g start = record g { history = g.history ++ start }

  first-eq-ok :
      {B : Type 0} (f : String → M B) (g : Git) {g' : Git} {b : B}
      → (or_on_failure
              (execute_git_command w rev_parse)
              (execute_git_command w (clone w.shallow_clones))
            >>= f)
          g
        ≡ (g', ok b)
      → (start : List Action) × (o : String) × Started g.history start
        × (f o (extended g start) ≡ (g', ok b))
  unfolding execute_git_command
  first-eq-ok f g e =
      elim (Bool-cases (
        not (succeeded (w.exit_code g.history rev_parse))
        && not (w.is_killed (g.history ++ rev_parse ∷ [])))) [
          | inl q ↦
              let same = append_assoc g.history (rev_parse ∷ []) (clone w.shallow_clones ∷ []) in
              (
                rev_parse ∷ clone w.shallow_clones ∷ [],
                w.output (g.history ++ rev_parse ∷ []) (clone w.shallow_clones),
                ground arith,
                ground (arith, same),
              )
          | inr q ↦ (rev_parse ∷ [], w.output g.history rev_parse, ground arith, ground arith)
        ]

  abbrev pub reset_script : String → List Action
  reset_script hash = update_ref (w.local_ref_of hash) hash ∷ reset_hard hash ∷ clean ∷ []

  -- What follows once the repository is there.
  abbrev pub script : String → List Action
  script hash = fetch w.shallow_clones ∷ rev_parse_fetch_head ∷ reset_script hash

  abbrev done : String → M (Unit {0})
  done _ g = (g, ok tt)

  reset-eq-ok :
      (hash : String) (g g' : Git)
      → reset_to w hash g ≡ (g', ok tt)
      → let rest = reset_script hash in
        AllPassed g.history rest
        × (g' ≡ record { history = g.history ++ rest; local_ref = some (w.local_ref_of hash) })
  unfolding reset_to set_local_ref
  reset-eq-ok hash g g' e =
      let g0 = record g { local_ref = some (w.local_ref_of hash) } in
      let update = update_ref (w.local_ref_of hash) hash in
      let (p, e1) =
        then-eq-ok update
          (λ _.
            execute_git_command w (reset_hard hash) >>= λ _. execute_git_command w clean >>= done)
          g0 e in
      let (q, e2) =
        then-eq-ok (reset_hard hash) (λ _. execute_git_command w clean >>= done) (after update g0)
          e1 in
      let (r, e3) = then-eq-ok clean done (after (reset_hard hash) (after update g0)) e2 in
      (
        (p, (q, (r, tt))),
        ap (λ x. x.0) (sym e3)
            ∙ ap (λ h. record { history = h; local_ref = some (w.local_ref_of hash) })
                (append_assoc (g.history ++ update ∷ []) (reset_hard hash ∷ []) (clean ∷ [])
                  ∙ append_assoc g.history (update ∷ []) (reset_hard hash ∷ clean ∷ [])),
      )

  abbrev reset_head : String → M (Unit {0})
  reset_head fetch_head = reset_to w (w.strip fetch_head)

  abbrev fetch_and_reset : M (Unit {0})
  fetch_and_reset = execute_git_command w (fetch w.shallow_clones) >>= λ _.
      execute_git_command w rev_parse_fetch_head >>= reset_head

  all-ok :
      {B : Type 0} (a : Action) (f : String → M B) (g : Git)
      → w.exit_code g.history a ≡ pos 0
      → (execute_git_command w a >>= f) g ≡ f (w.output g.history a) (after a g)
  unfolding execute_git_command
  all-ok a f g e = ground arith

  first-ok :
      {B : Type 0} (f : String → M B) (g : Git)
      → w.exit_code g.history rev_parse ≡ pos 0
      → (or_on_failure
              (execute_git_command w rev_parse)
              (execute_git_command w (clone w.shallow_clones))
            >>= f)
          g
        ≡ f (w.output g.history rev_parse) (after rev_parse g)
  unfolding execute_git_command
  first-ok f g e = ground arith

  module _ (succeed : (history : List Action) (a : Action) → w.exit_code history a ≡ pos 0) where
    reset-ok : (hash : String) (g : Git) → (reset_to w hash g).1 ≡ ok tt
    unfolding reset_to set_local_ref
    reset-ok hash g =
        let update = update_ref (w.local_ref_of hash) hash in
        let g0 = record g { local_ref = some (w.local_ref_of hash) } in
        let g1 = after update g0 in
        ap (λ r. r.1)
          (all-ok update
              (λ _. execute_git_command w (reset_hard hash) >>= λ _.
                execute_git_command w clean >>= done)
              g0 (succeed g0.history update)
            ∙ all-ok (reset_hard hash) (λ _. execute_git_command w clean >>= done) g1
                (succeed g1.history (reset_hard hash))
            ∙ all-ok clean done (after (reset_hard hash) g1)
                (succeed (after (reset_hard hash) g1).history clean))

    fetch-ok : (g : Git) → (fetch_project w g).1 ≡ ok tt
    unfolding fetch_project note
    fetch-ok g =
        let g1 = record g { history = g.history ++ made_anew w } in
        let g2 = after rev_parse g1 in
        let g3 = after (fetch w.shallow_clones) g2 in
        ap (λ r. r.1)
          (first-ok (λ _. fetch_and_reset) g1 (succeed g1.history rev_parse)
            ∙ all-ok (fetch w.shallow_clones)
                (λ _. execute_git_command w rev_parse_fetch_head >>= reset_head) g2
                (succeed g2.history (fetch w.shallow_clones))
            ∙ all-ok rev_parse_fetch_head reset_head g3 (succeed g3.history rev_parse_fetch_head))
        ∙ reset-ok (w.strip (w.output g3.history rev_parse_fetch_head))
            (after rev_parse_fetch_head g3)

  -- A project that is fetched without an exception: its repository is made anew if it is shallow and
  -- must not be, it is cloned only if `rev-parse` raised, and then the branch is fetched, and the
  -- head that was fetched by this is the commit that the local ref is set to, and that the project
  -- is reset to, in this order. Each of these commands succeeded or the kill event was set. If all
  -- commands succeed there is no exception.
  pub fetch_project_lem :
      (g : Git)
      → let prepared = g.history ++ made_anew w in
        ((g' : Git)
          → fetch_project w g ≡ (g', ok tt)
          → (start : List Action) × (hash : String) × Started prepared start
            × (hash
                ≡ w.strip (
                    w.output
                      ((prepared ++ start) ++ fetch w.shallow_clones ∷ [])
                      rev_parse_fetch_head))
            × AllPassed (prepared ++ start) (script hash)
            × (g' ≡ record {
              history = (prepared ++ start) ++ script hash;
              local_ref = some (w.local_ref_of hash);
            }))
        × (((history : List Action) (a : Action) → w.exit_code history a ≡ pos 0)
            → (fetch_project w g).1 ≡ ok tt)
  unfolding fetch_project note
  fetch_project_lem g = (
    λ g' e.
        let g1 = record g { history = g.history ++ made_anew w } in
        let (start, o, started, e1) = first-eq-ok (λ _. fetch_and_reset) g1 e in
        let g2 = record g1 { history = g1.history ++ start } in
        let (p, e2) =
          then-eq-ok (fetch w.shallow_clones)
            (λ _. execute_git_command w rev_parse_fetch_head >>= reset_head) g2 e1 in
        let (q, e3) =
          then-eq-ok rev_parse_fetch_head reset_head (after (fetch w.shallow_clones) g2) e2 in
        let hash =
          w.strip (w.output (after (fetch w.shallow_clones) g2).history rev_parse_fetch_head) in
        let g4 = after rev_parse_fetch_head (after (fetch w.shallow_clones) g2) in
        let (rest, last) = reset-eq-ok hash g4 g' e3 in
        (
          start,
          hash,
          started,
          refl,
          (p, (q, rest)),
          last
              ∙ ap (λ h. record { history = h; local_ref = some (w.local_ref_of hash) })
                  (append_assoc (g2.history ++ fetch w.shallow_clones ∷ [])
                      (rev_parse_fetch_head ∷ []) (reset_script hash)
                    ∙ append_assoc g2.history (fetch w.shallow_clones ∷ [])
                        (rev_parse_fetch_head ∷ reset_script hash)),
        ),
    λ succeed. fetch-ok succeed g,
  )
