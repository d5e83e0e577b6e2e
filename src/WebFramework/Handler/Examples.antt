-- ===== src/WebFramework/Handler/Examples.antt =====
-- A request without a digest, and one for more builds than a page may have.
use cluster_runner_jie.Prelude.{
  ℕ, ◌+◌, Bool, true, false, Option, none, some, String, List, [], ◌∷◌, ◌≡◌, ◌⊎◌, ◌≢◌,
}
use cluster_runner_jie.Prelude.Int.{pos}
use cluster_runner_jie.Errors.{Result, ok}
use cluster_runner_jie.WebFramework.Handler.{
  Library, Limits, Request, decoded_body, answered, serve,
}
use cluster_runner_jie.WebFramework.Handler.Rejecting.{IsRefusal, AsksFor, AsksForNone, serve_lem}

abbrev library : Library ℕ
library = record {
  int = λ s. some (pos 50);
  json_decode = λ s. some 1;
  no_body = 0;
  hex_digest = λ message secret. "d1";
  len = λ s. 10;
  is_ascii = λ s. true;
  header_version = λ s. none;
  first_uri_component = λ s. none;
}

abbrev limits : Limits
limits = record {
  pagination_offset = pos 0;
  pagination_limit = pos 30;
  pagination_max_limit = pos 2;
}

abbrev unsigned : Request
unsigned = record {
  session_id = none;
  expected_session_id = none;
  digest = none;
  encoded_body = "{}";
  is_form = false;
}

abbrev count_up : ℕ → ℕ → ℕ × Result ℕ
count_up body n = (body + n, ok 200)

abbrev entries : List ℕ
entries = 4 ∷ 5 ∷ 6 ∷ []

serve_lem_example :
    let x = serve library true "s1" "secret" count_up unsigned 7 in
    (◌≡◌ {A = Bool} true true → ◌≢◌ {A = String} "" "d1" → x.0 ≡ 7 × IsRefusal library x.1)
    × (◌≡◌ {A = Bool} true true → ◌≡◌ {A = Bool} false true → x.0 ≡ 7 × IsRefusal library x.1)
    × ((i : String) → AsksFor library unsigned i → i ≢ "s1" → x ≡ (7, 412))
    × ((a : ℕ)
        → AsksFor library unsigned "s1" ⊎ AsksForNone library unsigned
        → decoded_body library "{}" ≡ ok a
        → ◌≡◌ {A = Option String} none (some "d1")
        → ◌≡◌ {A = Bool} true true
        → ◌≡◌ {A = Bool} false false
        → x ≡ answered library (count_up a 7))
serve_lem_example = serve_lem library "s1" "secret" count_up unsigned 7 true
