-- ===== src/Master/Build/Payloads.antt =====
-- What the payload of a report does to a build.
use cluster_runner_jie.Prelude.{
  ℕ, ◌+◌, ◌≡◌, refl, sym, ap, ◌∙◌, inl, inr, Option, none, some, List, [], ◌∷◌, ◌==◌, All,
  Bool-cases, ==_iff, ◌⊎◌, subst,
}
use mathlib.Core.Option.{some-injective}
use cluster_runner_jie.Prelude.Dict.{lookup, lookup-insert, ℕ_eq}
use cluster_runner_jie.Errors.{Error, Result, ok, err}
use cluster_runner_jie.Prelude.Int.{ℤ}
use cluster_runner_jie.Master.Subjob.{Atom, Subjob, completed}
use cluster_runner_jie.Master.Build.{Build}
use cluster_runner_jie.Master.Build.Subjobs.{
  put_subjob, Payload, payload, no_payload, ExitCodes, parse_exit_codes, parse_payload, with_code,
  handle_subjob_payload,
}

-- Every atom of the subjob is COMPLETED.
abbrev pub IsCompleted : Subjob → Type 0
IsCompleted s = All (λ (a : Atom). a.state ≡ some completed) s.atoms

-- The build has a subjob of that id, with every atom COMPLETED.
abbrev pub HasCompleted : ℕ → Build → Type 0
HasCompleted i b = (s : Subjob) × (lookup i b.all_subjobs_by_id ≡ some s) × IsCompleted s

abbrev pub Has : ℕ → Build → Type 0
Has i b = (s : Subjob) × (lookup i b.all_subjobs_by_id ≡ some s)

Result-cases : {A : Type 0} (r : Result A) → ((e : Error) × r ≡ err e) ⊎ ((a : A) × r ≡ ok a)
Result-cases (err e) = inl (e, refl)
Result-cases (ok a) = inr (a, refl)

abbrev IsDone : List Atom → Type 0
IsDone atoms = All (λ (a : Atom). a.state ≡ some completed) atoms

parse-err :
    (codes : ExitCodes) (k : ℕ) (a : Atom) (as' : List Atom) (e : Error)
    → codes k ≡ err e
    → (parse_exit_codes codes k (a ∷ as')).0 ≡ a ∷ as'
unfolding parse_exit_codes
parse-err codes k a as' e q = ap (λ r. (with_code r a as' (parse_exit_codes codes (k + 1) as')).0) q

parse-ok :
    (codes : ExitCodes) (k : ℕ) (a : Atom) (as' : List Atom) (c : ℤ)
    → codes k ≡ ok c
    → (parse_exit_codes codes k (a ∷ as')).0
      ≡ record a { exit_code = some c } ∷ (parse_exit_codes codes (k + 1) as').0
unfolding parse_exit_codes
parse-ok codes k a as' c q = ap (λ r. (with_code r a as' (parse_exit_codes codes (k + 1) as')).0) q

parse-All :
    (codes : ExitCodes) (k : ℕ) (atoms : List Atom)
    → All (λ (a : Atom). a.state ≡ some completed) atoms
    → All (λ (a : Atom). a.state ≡ some completed) (parse_exit_codes codes k atoms).0
unfolding parse_exit_codes
parse-All codes k [] h = tt
parse-All codes k (a ∷ as') h = elim (Result-cases (codes k)) [
  | inl (e, q) ↦ subst IsDone (sym (parse-err codes k a as' e q)) h
  | inr (c, q) ↦
      subst IsDone (sym (parse-ok codes k a as' c q)) (h.0, parse-All codes (k + 1) as' h.1)
]

put-Has : (i j : ℕ) (s : Subjob) (b : Build) → Has j b → Has j (put_subjob i s b)
put-Has i j s b (t, e) = elim (Bool-cases (i == j)) [
  | inl same ↦ (s, lookup-insert i j s b.all_subjobs_by_id ∙ rw same refl)
  | inr other ↦ (t, lookup-insert i j s b.all_subjobs_by_id ∙ rw other e)
]

put-HasCompleted :
    (i j : ℕ) (s s' : Subjob) (b : Build)
    → lookup i b.all_subjobs_by_id ≡ some s
    → (IsCompleted s → IsCompleted s')
    → HasCompleted j b
    → HasCompleted j (put_subjob i s' b)
put-HasCompleted i j s s' b found keeps (t, e, done) = elim (Bool-cases (i == j)) [
  | inl same ↦ (
    s',
    lookup-insert i j s' b.all_subjobs_by_id ∙ rw same refl,
    keeps (
        subst IsCompleted
          (some-injective t s
            (sym e ∙ ap (λ k. lookup k b.all_subjobs_by_id) (sym ((==_iff i j).0 same)) ∙ found))
          done),
  )
  | inr other ↦ (t, lookup-insert i j s' b.all_subjobs_by_id ∙ rw other e, done)
]

-- What a payload leaves as it was.
pub record IsRead (b c : Build) : Type 0 where
  pub finished : c.finished_subjobs ≡ b.finished_subjobs
  pub state : c.state ≡ b.state
  pub threads : c.postbuild_threads ≡ b.postbuild_threads
  pub has : (j : ℕ) → Has j b → Has j c
  pub completed : (j : ℕ) → HasCompleted j b → HasCompleted j c

unread : (b : Build) → IsRead b b
unread b = record {
  finished = refl;
  state = refl;
  threads = refl;
  has = λ j h. h;
  completed = λ j h. h;
}

pub payload-IsRead : (i : ℕ) (p : Payload) (b : Build) → IsRead b (handle_subjob_payload i p b).0
unfolding handle_subjob_payload parse_payload
payload-IsRead i no_payload b = unread b
payload-IsRead i (payload (some e) codes) b = unread b
payload-IsRead i (payload none codes) b = go (lookup i b.all_subjobs_by_id) refl
  where
    go :
        (o : Option Subjob)
        → lookup i b.all_subjobs_by_id ≡ o
        → IsRead b (parse_payload codes i o b).0
    go none q = unread b
    go (some s) q =
        let s' : Subjob = record s { atoms = (parse_exit_codes codes 0 s.atoms).0 } in
        record {
          finished = refl;
          state = refl;
          threads = refl;
          has = λ j h. put-Has i j s' b h;
          completed = λ j h. put-HasCompleted i j s s' b q (parse-All codes 0 s.atoms) h;
        }
