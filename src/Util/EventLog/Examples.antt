-- ===== src/Util/EventLog/Examples.antt =====
-- Two events in a file; a client has seen the first one.
use cluster_runner_jie.Prelude.{
  ℕ, ◌+◌, ◌≤◌, ◌<◌, none, some, List, [], ◌∷◌, drop, ◌≡◌, ◌≢◌, refl, if◌then◌else◌,
}
use cluster_runner_jie.Prelude.Int.{pos}
use cluster_runner_jie.Prelude.Dict.{String_eq}
use cluster_runner_jie.Errors.{ok}
use cluster_runner_jie.Util.EventLog.{
  Call, Format, event_of, initialized, record_events, get_events,
}
use cluster_runner_jie.Util.EventLog.Cache.{recorded}
use cluster_runner_jie.Util.EventLog.Since.{get_events-since}

abbrev started : Call
started = record { tag = "SERVICE_STARTED"; event_data = []; clock = λ i. 100 + i }

abbrev requested : Call
requested = record {
  tag = "BUILD_REQUEST_QUEUED";
  event_data = ("build_id", "1") ∷ [];
  clock = λ i. 200 + i;
}

abbrev format : Format
format = record {
  upper = λ name. name;
  dumps = λ e. e.tag;
  loads = λ line.
      if String_eq.beq line "SERVICE_STARTED"
      then some (event_of (pos 1) started)
      else if String_eq.beq line "BUILD_REQUEST_QUEUED"
      then some (event_of (pos 2) requested)
      else none;
}

abbrev calls : List Call
calls = started ∷ requested ∷ []

cache_or_file :
    let l = record_events format calls (initialized "eventlog.log") in
    (1 ≤ 2
      → get_events format l.written none (some (pos 1)) l ≡ ok (some (drop 1 (recorded 0 calls))))
    × (calls ≢ []
        → 2 < 1
        → get_events format l.written none (some (pos 1)) l ≡ ok (some l.log_cache))
    × ((m : ℕ) × (l.log_cache ≡ drop m (recorded 0 calls)) × (calls ≢ [] → m < 2))
cache_or_file = get_events-since format "eventlog.log" refl calls (refl, (refl, tt)) 1
