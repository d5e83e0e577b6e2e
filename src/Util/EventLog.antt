-- ===== src/Util/EventLog.antt =====
-- app/util/event_log.py: the log of events, its cache and what it answers to a question for the
-- events since an id or a time. Upper case, `json.dumps` and `json.loads` are arguments, and so are
-- the file that is read and the readings of the clock.
pub mod Cache
pub mod Backwards
pub mod Since
pub mod Examples
use cluster_runner_jie.Prelude.{
  ℕ, zero, suc, ◌+◌, ◌*◌, Bool, true, false, not, ◌&&◌, ◌||◌, Option, none, some, String, List, [],
  ◌∷◌, ◌++◌, length, leb, ltb, ◌==◌, if◌then◌else◌,
}
use cluster_runner_jie.Prelude.Int.{ℤ, pos, eqb_ℤ, ltb_ℤ}
use cluster_runner_jie.Prelude.Dict.{Dict, String_eq}
use cluster_runner_jie.Errors.{Result, ok, err, value_error, key_error}
use cluster_runner_jie.Util.Counter.{Counter, increment, new as new_counter}
use mathlib.Core.List.{reverse}

abbrev pub log_cache_expire_time_in_hours : ℕ
log_cache_expire_time_in_hours = 5

abbrev pub log_cache_threshold : ℕ
log_cache_threshold = 100000

-- The keys `__id__`, `__timestamp__` and `__tag__` of an event, and its other data.
pub record Event : Type 0 where
  pub event_id : ℤ
  pub timestamp : ℕ
  pub tag : String
  pub event_data : Dict String String

pub record Format : Type 0 where
  pub upper : String → String
  pub dumps : Event → String
  pub loads : String → Option Event

-- `written` is what the analytics logger was given, line by line.
pub record EventLog : Type 0 where
  pub filename : Option String
  pub has_analytics_logger : Bool
  pub event_id_generator : Counter
  pub log_cache : List Event
  pub written : List String

abbrev pub new : Option String → EventLog
new filename = record {
  filename = filename;
  has_analytics_logger = false;
  event_id_generator = new_counter;
  log_cache = [];
  written = [];
}

abbrev pub is_none : {A : Type 0} → Option A → Bool
is_none none = true
is_none (some a) = false

abbrev pub logging_disabled : EventLog → Bool
logging_disabled l = is_none l.filename

abbrev pub is_stdout : Format → Option String → Bool
is_stdout f none = false
is_stdout f (some name) = String_eq.beq (f.upper name) "STDOUT"

-- The handler of a log to a file reads the key `max_eventlog_file_fize` of the configuration, which
-- may be missing there.
unfoldable pub initialize : Format → Bool → EventLog → Result EventLog
initialize f has_key l =
    if logging_disabled l
    then ok l
    else if is_stdout f l.filename || has_key
    then ok (record l { has_analytics_logger = true })
    else err key_error

-- A log whose handler was made.
abbrev pub initialized : String → EventLog
initialized name = record (new (some name)) { has_analytics_logger = true }

unfoldable pub oldest_cache_event_is_stale : ℕ → List Event → Bool
oldest_cache_event_is_stale now [] = false
oldest_cache_event_is_stale now (e ∷ cache) =
    ltb (e.timestamp + log_cache_expire_time_in_hours * 60 * 60) now

-- `clock` gives the time at each further reading.
unfoldable pub expire_stale_items_in_cache : (ℕ → ℕ) → ℕ → List Event → List Event
unfolding oldest_cache_event_is_stale
expire_stale_items_in_cache clock i [] = []
expire_stale_items_in_cache clock i (e ∷ cache) =
    let rest = expire_stale_items_in_cache clock (suc i) cache in
    if ltb log_cache_threshold (length (e ∷ cache))
      && oldest_cache_event_is_stale (clock i) (e ∷ cache)
    then rest
    else e ∷ cache

unfoldable pub write_to_log_cache : (ℕ → ℕ) → Event → EventLog → EventLog
unfolding expire_stale_items_in_cache
write_to_log_cache clock e l = record l {
  log_cache = expire_stale_items_in_cache clock 1 (l.log_cache ++ e ∷ []);
}

unfoldable pub write_to_analytics_logger : String → EventLog → EventLog
write_to_analytics_logger line l =
    if l.has_analytics_logger then record l { written = l.written ++ line ∷ [] } else l

-- What a caller records: the tag, the data, and the clock from then on.
pub record Call : Type 0 where
  pub tag : String
  pub event_data : Dict String String
  pub clock : ℕ → ℕ

abbrev pub event_of : ℤ → Call → Event
event_of i c = record {
  event_id = i;
  timestamp = c.clock 0;
  tag = c.tag;
  event_data = c.event_data;
}

-- since_timestamp is None or since_timestamp >= oldest
abbrev pub has_timestamp : Option ℕ → List Event → Bool
has_timestamp none cache = true
has_timestamp (some t) [] = true
has_timestamp (some t) (e ∷ cache) = leb e.timestamp t

-- since_id is None or since_id > oldest
abbrev pub has_id : Option ℤ → List Event → Bool
has_id none cache = true
has_id (some i) [] = true
has_id (some i) (e ∷ cache) = ltb_ℤ e.event_id i

unfoldable pub should_try_get_event_from_log_cache : Option ℕ → Option ℤ → List Event → Bool
should_try_get_event_from_log_cache since_timestamp since_id [] = false
should_try_get_event_from_log_cache since_timestamp since_id (e ∷ cache) =
    has_timestamp since_timestamp (e ∷ cache) && has_id since_id (e ∷ cache)

-- A time or an id of 0 counts as none.
abbrev pub by_timestamp : Option ℕ → Event → Bool
by_timestamp none e = false
by_timestamp (some t) e = not (t == 0) && leb e.timestamp t

abbrev pub by_id : Option ℤ → Event → Bool
by_id none e = false
by_id (some i) e = not (eqb_ℤ i (pos 0)) && eqb_ℤ e.event_id i

abbrev pub breaks : Option ℕ → Option ℤ → Event → Bool
breaks since_timestamp since_id e = by_timestamp since_timestamp e || by_id since_id e

-- The loop up to its `break`.
unfoldable pub collect : (Event → Bool) → List Event → List Event
collect stop [] = []
collect stop (e ∷ es) = let rest = collect stop es in if stop e then [] else e ∷ rest

unfoldable pub get_events_from_reversed_generator : Option ℕ → Option ℤ → List Event → List Event
unfolding collect
get_events_from_reversed_generator since_timestamp since_id generator =
    reverse (collect (breaks since_timestamp since_id) generator)

module _ (f : Format) where
  unfoldable pub record_event : Call → EventLog → EventLog
  unfolding increment write_to_log_cache write_to_analytics_logger
  record_event c l =
      let (counter, i) = increment l.event_id_generator in
      let l' =
        write_to_analytics_logger (f.dumps (event_of i c))
          (record l { event_id_generator = counter }) in
      if not (logging_disabled l) then write_to_log_cache c.clock (event_of i c) l' else l

  -- Lines that are no JSON are left out.
  unfoldable pub reversed_log_file_events : List String → List Event
  reversed_log_file_events [] = []
  reversed_log_file_events (line ∷ lines) = elim (f.loads line) [
    | none ↦ reversed_log_file_events lines
    | some e ↦ e ∷ reversed_log_file_events lines
  ]

  abbrev pub both_given : Option ℕ → Option ℤ → Bool
  both_given since_timestamp since_id = not (is_none since_timestamp) && not (is_none since_id)

  unfoldable pub get_events :
      List String → Option ℕ → Option ℤ → EventLog → Result (Option (List Event))
  unfolding should_try_get_event_from_log_cache reversed_log_file_events
      get_events_from_reversed_generator
  get_events file since_timestamp since_id l =
      if logging_disabled l || is_stdout f l.filename
      then ok none
      else if both_given since_timestamp since_id
      then err value_error
      else if should_try_get_event_from_log_cache since_timestamp since_id l.log_cache
      then ok
          (some (get_events_from_reversed_generator since_timestamp since_id (reverse l.log_cache)))
      else ok (
          some (
            get_events_from_reversed_generator since_timestamp since_id
              (reversed_log_file_events (reverse file))))

  unfoldable pub record_events : List Call → EventLog → EventLog
  unfolding record_event
  record_events [] l = l
  record_events (c ∷ cs) l = record_events cs (record_event c l)
