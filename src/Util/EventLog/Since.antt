-- ===== src/Util/EventLog/Since.antt =====
-- What a client gets that asks for the events since an id.
use cluster_runner_jie.Prelude.{
  ℕ, zero, suc, ◌+◌, ◌-◌, ◌≤◌, ◌<◌, true, false, none, some, String, List, [], ◌∷◌, length, drop,
  All, ◌≡◌, ◌≢◌, refl, sym, ap, subst, ◌∙◌, arith, Bool-cases, inl, inr, if◌then◌else◌, ltb,
  length-drop, drop-drop, drop-nil,
}
use cluster_runner_jie.Prelude.Int.{pos}
use cluster_runner_jie.Errors.{ok}
use cluster_runner_jie.Prelude.Dict.{String_eq}
use mathlib.Core.List.{reverse}
use cluster_runner_jie.Util.EventLog.{
  Event, Format, EventLog, Call, initialized, record_events, get_events,
  get_events_from_reversed_generator, reversed_log_file_events, should_try_get_event_from_log_cache,
}
use cluster_runner_jie.Util.EventLog.Cache.{
  recorded, length-recorded, drop-recorded, HasRecorded, HasRecorded-new, HasRecorded-record_events,
  reversed-lines,
}
use cluster_runner_jie.Util.EventLog.Backwards.{unstopped, unstopped_result, stopped_result}

abbrev since : ℕ → List Event → List Event
since n es = get_events_from_reversed_generator none (some (pos n)) (reverse es)

since-recorded :
    (n : ℕ) (cs : List Call) → n ≤ length cs → since n (recorded 0 cs) ≡ drop n (recorded 0 cs)
since-recorded zero cs h = unstopped_result 0 (recorded 0 cs) (unstopped 0 0 cs (inl (omega arith)))
since-recorded (suc i) cs h =
    let e : suc (0 + i) ≡ suc i = omega arith in
    subst (λ j. since j (recorded 0 cs) ≡ drop (suc i) (recorded 0 cs)) e
      (stopped_result i 0 cs (omega arith))

since-cache :
    (m n : ℕ) (cs : List Call)
    → m < n
    → n ≤ length cs
    → since n (drop m (recorded 0 cs)) ≡ drop n (recorded 0 cs)
since-cache m n cs h p =
    let same : suc (m + 0 + (n - suc m)) ≡ n = omega arith in
    let whole : m + suc (n - suc m) ≡ n = omega arith in
    ap (since n) (drop-recorded m 0 cs)
    ∙ subst
        (λ j.
          since j (recorded (m + 0) (drop m cs))
          ≡ drop (suc (n - suc m)) (recorded (m + 0) (drop m cs)))
        same (stopped_result (n - suc m) (m + 0) (drop m cs) (omega (arith, length-drop m cs)))
    ∙ ap (drop (suc (n - suc m))) (sym (drop-recorded m 0 cs))
    ∙ drop-drop (suc (n - suc m)) m (recorded 0 cs)
    ∙ ap (λ j. drop j (recorded 0 cs)) whole

since-late :
    (m n : ℕ) (cs : List Call)
    → length cs < n
    → m ≤ length cs
    → since n (drop m (recorded 0 cs)) ≡ drop m (recorded 0 cs)
since-late m n cs h p =
    ap (since n) (drop-recorded m 0 cs)
    ∙ unstopped_result n (recorded (m + 0) (drop m cs))
        (unstopped n (m + 0) (drop m cs) (inr (omega (arith, length-drop m cs))))
    ∙ sym (drop-recorded m 0 cs)

-- The cache answers if its oldest event is before the one that is asked for.
from_cache :
    (m n : ℕ) (cs : List Call)
    → m < length cs
    → should_try_get_event_from_log_cache none (some (pos n)) (drop m (recorded 0 cs))
      ≡ (if ltb (suc m) n then true else false)
unfolding should_try_get_event_from_log_cache
from_cache m n cs h =
    rw (drop-recorded m 0 cs) (by_head (drop m cs) (omega (arith, length-drop m cs)))
  where
    by_head :
        (rest : List Call)
        → 0 < length rest
        → should_try_get_event_from_log_cache none (some (pos n)) (recorded (m + 0) rest)
          ≡ (if ltb (suc m) n then true else false)
    by_head [] p = elim p [ ]
    by_head (c ∷ rest) p = ground arith

module _ (f : Format) (name : String)
    (to_file : String_eq.beq (f.upper name) "STDOUT" ≡ false) where
  get_events-branch :
      (file : List String) (n : ℕ) (l : EventLog)
      → l.filename ≡ some name
      → get_events f file none (some (pos n)) l
        ≡ ok (
            some (
              if should_try_get_event_from_log_cache none (some (pos n)) l.log_cache
              then since n l.log_cache
              else get_events_from_reversed_generator none
                  (some (pos n))
                  (reversed_log_file_events f (reverse file))))
  unfolding get_events
  get_events-branch file n l e =
      rw (e, to_file)
        (elim (Bool-cases (should_try_get_event_from_log_cache none (some (pos n)) l.log_cache)) [
          | inl q ↦ rw q refl
          | inr q ↦ rw q refl
        ])

  module _ (cs : List Call) (law : All (λ e. f.loads (f.dumps e) ≡ some e) (recorded 0 cs))
      (m : ℕ) where
    chosen : (n : ℕ) → List Event → List Event
    chosen n es =
        if should_try_get_event_from_log_cache none (some (pos n)) (drop m es)
        then since n (drop m es)
        else since n es

    asked :
        (l : EventLog) (n : ℕ)
        → HasRecorded f name l (recorded 0 cs) m
        → get_events f l.written none (some (pos n)) l ≡ ok (some (chosen n (recorded 0 cs)))
    unfolding chosen
    asked l n h =
        get_events-branch l.written n l h.named
        ∙ rw (h.cached, h.lines, reversed-lines f name (recorded 0 cs) law) refl

    chosen_within :
        (n : ℕ) → m < length cs → n ≤ length cs → chosen n (recorded 0 cs) ≡ drop n (recorded 0 cs)
    unfolding chosen
    chosen_within n k p =
        rw (from_cache m n cs k)
          (ground (arith, since-recorded n cs p, λ (q : m < n). since-cache m n cs q p))

    chosen_late :
        (n : ℕ) → m < length cs → length cs < n → chosen n (recorded 0 cs) ≡ drop m (recorded 0 cs)
    unfolding chosen
    chosen_late n k p = rw (from_cache m n cs k) (ground (arith, since-late m n cs p (omega arith)))

  nothing :
      (n : ℕ) (l : EventLog)
      → HasRecorded f name l [] 0
      → n ≤ 0
      → get_events f l.written none (some (pos n)) l ≡ ok (some (drop n []))
  unfolding should_try_get_event_from_log_cache reversed_log_file_events
      get_events_from_reversed_generator
  nothing n l h p =
      get_events-branch l.written n l h.named ∙ rw (h.cached, h.lines, drop-nil {A = Event} n) refl

  -- A log to a file that has recorded events from its start on, in a file that holds all the lines
  -- written, each of which is read as the event it was: to a client that asks for those since id
  -- `n`, which is not above the last one, it answers with all events after the first `n`, whether
  -- its cache answers or the file; the cache may have lost events that are stale. An id above the
  -- last one is not found, and the answer is the whole cache.
  pub get_events-since :
      (cs : List Call) (law : All (λ e. f.loads (f.dumps e) ≡ some e) (recorded 0 cs)) (n : ℕ)
      → let l = record_events f cs (initialized name) in
        (n ≤ length cs
          → get_events f l.written none (some (pos n)) l ≡ ok (some (drop n (recorded 0 cs))))
        × (cs ≢ []
            → length cs < n
            → get_events f l.written none (some (pos n)) l ≡ ok (some l.log_cache))
        × ((m : ℕ) × (l.log_cache ≡ drop m (recorded 0 cs)) × (cs ≢ [] → m < length cs))
  get_events-since [] law n =
      let h : HasRecorded f name (record_events f [] (initialized name)) [] 0 =
        unfold record_events in HasRecorded-new f name in
      (λ p. nothing n _ h p, λ c _. absurd (c refl), (0, h.cached, λ c. absurd (c refl)))
  get_events-since (c ∷ cs) law n =
      let (m, h) =
        HasRecorded-record_events f name (c ∷ cs) (initialized name) [] 0
          (HasRecorded-new f name) in
      let k : m < length (c ∷ cs) = omega (arith, length-recorded 1 cs, h.kept (omega arith)) in
      (
        λ p.
            asked (c ∷ cs) law m _ n h
            ∙ ap (λ es. ok (some es)) (chosen_within (c ∷ cs) law m n k p),
        λ _ p.
            asked (c ∷ cs) law m _ n h
            ∙ ap (λ es. ok (some es)) (chosen_late (c ∷ cs) law m n k p ∙ sym h.cached),
        (m, h.cached, λ _. k),
      )
