-- ===== src/Util/EventLog/Backwards.antt =====
-- The loop of app/util/event_log.py over the events backwards: where it stops, and what it gives.
use cluster_runner_jie.Prelude.{
  ℕ, zero, suc, ◌+◌, ◌≤◌, ◌<◌, Bool, true, false, none, some, List, [], ◌∷◌, ◌++◌, length, drop,
  All, ◌≡◌, refl, sym, ap, subst, ◌∙◌, arith, ◌⊎◌, inl, All-append,
}
use cluster_runner_jie.Prelude.Int.{pos}
use cluster_runner_jie.Prelude.Dict.{String_eq}
use mathlib.Core.List.{reverse, reverse-append, reverse-reverse, reverse-cons, append_assoc}
use cluster_runner_jie.Util.EventLog.{
  Event, Call, event_of, get_events_from_reversed_generator, collect, breaks,
}
use cluster_runner_jie.Util.EventLog.Cache.{recorded}

-- The loop over the events backwards takes those after the one that stops it.
abbrev before : ℕ → Event → Bool
before n e = breaks none (some (pos n)) e

collect_all :
    (stop : Event → Bool) (xs : List Event) → All (λ e. stop e ≡ false) xs → collect stop xs ≡ xs
unfolding collect
collect_all stop [] h = refl
collect_all stop (e ∷ es) h = rw h.0 (ap (λ xs. e ∷ xs) (collect_all stop es h.1))

collect_until :
    (stop : Event → Bool) (xs : List Event) (e : Event) (ys : List Event)
    → All (λ e. stop e ≡ false) xs
    → stop e ≡ true
    → collect stop (xs ++ e ∷ ys) ≡ xs
unfolding collect
collect_until stop [] e ys h q = rw q refl
collect_until stop (x ∷ xs) e ys h q = rw h.0 (ap (λ xs. x ∷ xs) (collect_until stop xs e ys h.1 q))

All-reverse {ℓ κ} : {A : Type ℓ} (P : A → Type κ) (xs : List A) → All P xs → All P (reverse xs)
All-reverse P [] h = tt
All-reverse P (x ∷ xs) h =
    subst (All P) (sym (reverse-cons x xs))
      (All-append P (reverse xs) (x ∷ []) (All-reverse P xs h.1) (h.0, tt))

-- No event after number `k` has the number `n`, if that is 0, or not above `k`, or too large.
pub unstopped :
    (n k : ℕ) (cs : List Call)
    → (n ≤ k) ⊎ (k + length cs < n)
    → All (λ e. before n e ≡ false) (recorded k cs)
unstopped n k [] h = tt
unstopped n k (c ∷ cs) h = (ground arith, unstopped n (suc k) cs (ground arith))

pub unstopped_result :
    (n : ℕ) (es : List Event)
    → All (λ e. before n e ≡ false) es
    → get_events_from_reversed_generator none (some (pos n)) (reverse es) ≡ es
unfolding get_events_from_reversed_generator
unstopped_result n es h =
    ap reverse (collect_all (before n) (reverse es) (All-reverse _ es h)) ∙ reverse-reverse es

-- The event with number `suc (k + i)` in its place.
record Place (i k : ℕ) (cs : List Call) : Type 0 where
  earlier : List Event
  call : Call
  later : List Call
  whole :
      recorded k cs ≡ earlier ++ event_of (pos (suc (k + i))) call ∷ recorded (suc (k + i)) later
  rest : drop (suc i) (recorded k cs) ≡ recorded (suc (k + i)) later

place : (i k : ℕ) (cs : List Call) → i < length cs → Place i k cs
place i k [] p = elim p [ ]
place zero k (c ∷ cs) p =
    let e : suc (k + zero) ≡ suc k = omega arith in
    record { earlier = []; call = c; later = cs; whole = rw e refl; rest = rw e refl }
place (suc i) k (c ∷ cs) p =
    let r = place i (suc k) cs (omega arith) in
    let e : suc (k + suc i) ≡ suc (suc k + i) = omega arith in
    record {
      earlier = event_of (pos (suc k)) c ∷ r.earlier;
      call = r.call;
      later = r.later;
      whole = rw e (ap (λ xs. event_of (pos (suc k)) c ∷ xs) r.whole);
      rest = rw e r.rest;
    }

stopped_at :
    (n : ℕ) (pre ys : List Event) (e : Event)
    → All (λ x. before n x ≡ false) ys
    → before n e ≡ true
    → get_events_from_reversed_generator none (some (pos n)) (reverse (pre ++ e ∷ ys)) ≡ ys
unfolding get_events_from_reversed_generator
stopped_at n pre ys e h q =
    ap (λ xs. reverse (collect (before n) xs))
      (reverse-append pre (e ∷ ys)
        ∙ ap (λ xs. xs ++ reverse pre) (reverse-cons e ys)
        ∙ append_assoc (reverse ys) (e ∷ []) (reverse pre))
    ∙ ap reverse (collect_until (before n) (reverse ys) e (reverse pre) (All-reverse _ ys h) q)
    ∙ reverse-reverse ys

pub stopped_result :
    (i k : ℕ) (cs : List Call)
    → i < length cs
    → get_events_from_reversed_generator none (some (pos (suc (k + i)))) (reverse (recorded k cs))
      ≡ drop (suc i) (recorded k cs)
stopped_result i k cs p =
    let r = place i k cs p in
    let n = suc (k + i) in
    ap (λ xs. get_events_from_reversed_generator none (some (pos n)) (reverse xs)) r.whole
    ∙ stopped_at n r.earlier (recorded n r.later) (event_of (pos n) r.call)
        (unstopped n n r.later (inl (omega arith))) (ground arith)
    ∙ sym r.rest
