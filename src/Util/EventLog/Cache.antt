-- ===== src/Util/EventLog/Cache.antt =====
-- What the cache and the file of a log hold after calls were recorded.
use cluster_runner_jie.Prelude.{
  ℕ, zero, suc, ◌+◌, ◌≤◌, ◌<◌, true, ◌&&◌, some, String, List, [], ◌∷◌, ◌++◌, map, length, drop,
  All, ◌≡◌, refl, sym, ap, subst, ◌∙◌, arith, Bool-cases, inl, inr, ltb, length-append, length-drop,
  drop-drop,
}
use cluster_runner_jie.Prelude.Int.{pos, ◌+ℤ◌}
use cluster_runner_jie.Prelude.Dict.{String_eq}
use cluster_runner_jie.Util.Counter.{Counter, increment}
use mathlib.Core.List.{reverse, reverse-cons, append_assoc, append-nil, map-append}
use cluster_runner_jie.Util.EventLog.{
  Event, Format, EventLog, Call, event_of, initialized, expire_stale_items_in_cache,
  oldest_cache_event_is_stale, log_cache_threshold, record_event, record_events,
  reversed_log_file_events,
}

-- The events of calls, numbered from `suc k` on.
abbrev pub recorded : ℕ → List Call → List Event
recorded k [] = []
recorded k (c ∷ cs) = event_of (pos (suc k)) c ∷ recorded (suc k) cs

pub length-recorded : (k : ℕ) (cs : List Call) → length (recorded k cs) ≡ length cs
length-recorded k [] = refl
length-recorded k (c ∷ cs) = ap suc (length-recorded (suc k) cs)

pub drop-recorded :
    (m k : ℕ) (cs : List Call) → drop m (recorded k cs) ≡ recorded (m + k) (drop m cs)
drop-recorded zero k cs = ap (λ i. recorded i cs) (omega arith)
drop-recorded (suc m) k [] = refl
drop-recorded (suc m) k (c ∷ cs) =
    drop-recorded m (suc k) cs ∙ ap (λ i. recorded i (drop m cs)) (omega arith)

drop-append_short {ℓ} :
    {A : Type ℓ} (m : ℕ) (xs ys : List A) → m ≤ length xs → drop m (xs ++ ys) ≡ drop m xs ++ ys
drop-append_short zero xs ys h = refl
drop-append_short (suc m) [] ys h = elim h [ ]
drop-append_short (suc m) (x ∷ xs) ys h = drop-append_short m xs ys (omega arith)

-- What is stale goes from the front, and the last event stays.
expire-drop :
    (clock : ℕ → ℕ) (i : ℕ) (e : Event) (es : List Event)
    → (j : ℕ) × (j ≤ length es) × (expire_stale_items_in_cache clock i (e ∷ es) ≡ drop j (e ∷ es))
unfolding expire_stale_items_in_cache
expire-drop clock i e [] = (0, omega arith, ground arith)
expire-drop clock i e (x ∷ es) =
    let (j, within, same) = expire-drop clock (suc i) x es in
    elim (Bool-cases (
      ltb log_cache_threshold (length (e ∷ x ∷ es))
      && oldest_cache_event_is_stale (clock i) (e ∷ x ∷ es))) [
        | inl q ↦ (suc j, omega arith, rw q same)
        | inr q ↦ (0, omega arith, rw q refl)
      ]

expire-drop_last :
    (clock : ℕ → ℕ) (es : List Event) (e : Event)
    → (j : ℕ) × (j ≤ length es)
      × (expire_stale_items_in_cache clock 1 (es ++ e ∷ []) ≡ drop j (es ++ e ∷ []))
expire-drop_last clock [] e = expire-drop clock 1 e []
expire-drop_last clock (x ∷ es) e =
    let (j, within, same) = expire-drop clock 1 x (es ++ e ∷ []) in
    (j, omega (arith, length-append es (e ∷ [])), same)

module _ (f : Format) (name : String) where
  -- The log has recorded the events `es`, and its cache is what is left after the first `m`.
  pub record HasRecorded (l : EventLog) (es : List Event) (m : ℕ) : Type 0 where
    pub named : l.filename ≡ some name
    pub logs : l.has_analytics_logger ≡ true
    pub steps : l.event_id_generator.step ≡ pos 1
    pub counted : l.event_id_generator.current ≡ pos (length es)
    pub lines : l.written ≡ map f.dumps es
    pub cached : l.log_cache ≡ drop m es
    pub within : m ≤ length es
    pub kept : 0 < length es → m < length es

  module _ (c : Call) (l : EventLog) (es : List Event) (m : ℕ) (h : HasRecorded l es m) where
    abbrev fresh : Event
    fresh = event_of (pos (suc (length es))) c

    next_step :
        (increment l.event_id_generator).0
        ≡ record { step = pos 1; current = pos (suc (length es)) }
    unfolding increment ◌+ℤ◌
    next_step = rw (h.steps, h.counted) (ground arith)

    next_id : (increment l.event_id_generator).1 ≡ pos (suc (length es))
    unfolding increment ◌+ℤ◌
    next_id = rw (h.steps, h.counted) (ground arith)

    next_cache :
        (record_event f c l).log_cache
        ≡ expire_stale_items_in_cache c.clock 1 (l.log_cache ++ fresh ∷ [])
    unfolding record_event
    next_cache = rw (h.named, h.logs, next_id) refl

    next_written : (record_event f c l).written ≡ l.written ++ f.dumps fresh ∷ []
    unfolding record_event
    next_written = rw (h.named, h.logs, next_id) refl

    next_counter :
        (record_event f c l).event_id_generator
        ≡ record { step = pos 1; current = pos (suc (length es)) }
    unfolding record_event
    next_counter = rw (h.named, h.logs) next_step

    next_name : (record_event f c l).filename ≡ some name
    unfolding record_event
    next_name = rw (h.named, h.logs) refl

    next_logs : (record_event f c l).has_analytics_logger ≡ true
    unfolding record_event
    next_logs = rw (h.named, h.logs) refl

    HasRecorded-record_event : (k : ℕ) × HasRecorded (record_event f c l) (es ++ fresh ∷ []) k
    HasRecorded-record_event =
        let (j, within, same) = expire-drop_last c.clock (drop m es) fresh in
        (
          m + j,
          record {
            named = next_name;
            logs = next_logs;
            steps = ap Counter.step next_counter;
            counted =
                ap Counter.current next_counter
                ∙ ap pos (omega (arith, length-append es (fresh ∷ [])));
            lines = next_written ∙ rw h.lines (sym (map-append f.dumps es (fresh ∷ [])));
            cached =
                next_cache
                ∙ ap (λ xs. expire_stale_items_in_cache c.clock 1 (xs ++ fresh ∷ [])) h.cached
                ∙ same
                ∙ ap (drop j) (sym (drop-append_short m es (fresh ∷ []) h.within))
                ∙ drop-drop j m (es ++ fresh ∷ []);
            within = omega (arith, length-append es (fresh ∷ []), length-drop m es, h.within);
            kept = λ _. omega (arith, length-append es (fresh ∷ []), length-drop m es, h.within);
          },
        )

  pub HasRecorded-record_events :
      (cs : List Call) (l : EventLog) (es : List Event) (m : ℕ)
      → HasRecorded l es m
      → (k : ℕ) × HasRecorded (record_events f cs l) (es ++ recorded (length es) cs) k
  unfolding record_events
  HasRecorded-record_events [] l es m h =
      (m, subst (λ xs. HasRecorded l xs m) (sym (append-nil es)) h)
  HasRecorded-record_events (c ∷ cs) l es m h =
      let (k, h') = HasRecorded-record_event c l es m h in
      let e = event_of (pos (suc (length es))) c in
      let (k', h'') = HasRecorded-record_events cs (record_event f c l) (es ++ e ∷ []) k h' in
      (
        k',
        subst (λ xs. HasRecorded (record_events f cs (record_event f c l)) xs k')
            (append_assoc es (e ∷ []) (recorded (length (es ++ e ∷ [])) cs)
              ∙ ap (λ i. es ++ e ∷ recorded i cs) (omega (arith, length-append es (e ∷ []))))
            h'',
      )

  pub HasRecorded-new : HasRecorded (initialized name) [] 0
  HasRecorded-new = record {
    named = refl;
    logs = refl;
    steps = refl;
    counted = refl;
    lines = refl;
    cached = refl;
    within = omega arith;
    kept = λ p. p;
  }

  parsed-append :
      (e : Event) (lines : List String)
      → f.loads (f.dumps e) ≡ some e
      → reversed_log_file_events f (lines ++ f.dumps e ∷ [])
        ≡ reversed_log_file_events f lines ++ e ∷ []
  unfolding reversed_log_file_events
  parsed-append e [] law = rw law refl
  parsed-append e (line ∷ lines) law = ground (arith, parsed-append e lines law)

  -- The file, read backwards, has the events in reverse.
  pub reversed-lines :
      (es : List Event)
      → All (λ e. f.loads (f.dumps e) ≡ some e) es
      → reversed_log_file_events f (reverse (map f.dumps es)) ≡ reverse es
  unfolding reversed_log_file_events
  reversed-lines [] law = refl
  reversed-lines (e ∷ es) law =
      ap (reversed_log_file_events f) (reverse-cons (f.dumps e) (map f.dumps es))
      ∙ parsed-append e (reverse (map f.dumps es)) law.0
      ∙ ap (λ xs. xs ++ e ∷ []) (reversed-lines es law.1)
      ∙ sym (reverse-cons e es)
