-- ===== src/WebFramework/Handler.antt =====
-- app/web_framework/cluster_base_handler.py and api_version_handler.py, `authenticated` of
-- app/util/decorators.py and app/util/secret.py. Parsing of texts and digests are arguments.
pub mod Rejecting
mod Examples
use cluster_runner_jie.Prelude.{
  ℕ, Bool, true, false, not, ◌&&◌, ◌||◌, Option, none, some, String, List, [], ◌∷◌, ltb, ◌==◌,
  if◌then◌else◌,
}
use cluster_runner_jie.Prelude.Int.{ℤ, pos, pos_part, ltb_ℤ}
use cluster_runner_jie.Prelude.Dict.{String_eq}
use cluster_runner_jie.Errors.{
  Error, bad_request, item_not_found, item_not_ready, authentication_error, precondition_failed,
  insecure_secret, type_error, attribute_error, Result, ok, err, ◌>>=◌, ◌>>◌,
}

-- `_exception_status_codes`, and 500 for any other exception.
abbrev pub status_code : Error → ℕ
status_code item_not_ready = 202
status_code bad_request = 400
status_code authentication_error = 401
status_code item_not_found = 404
status_code precondition_failed = 412
status_code e = 500

-- An empty text counts as none.
abbrev pub given : Option String → Option String
given none = none
given (some s) = if String_eq.beq s "" then none else some s

-- What is used of Python: `int`, the JSON reader, the digest of a message under a secret, the length
-- of a text and whether it is ASCII, the version that an Accept header names, and the first part of a URI.
pub record Library (A : Type 0) : Type 0 where
  pub int : String → Option ℤ
  pub json_decode : String → Option A
  pub no_body : A
  pub hex_digest : String → String → String
  pub len : String → ℕ
  pub is_ascii : String → Bool
  pub header_version : String → Option ℕ
  pub first_uri_component : String → Option String

-- `PaginationDefaults` of the configuration.
pub record Limits : Type 0 where
  pub pagination_offset : ℤ
  pub pagination_limit : ℤ
  pub pagination_max_limit : ℤ

pub record Request : Type 0 where
  pub session_id : Option String
  pub expected_session_id : Option String
  pub digest : Option String
  pub encoded_body : String
  -- the body was the argument `__encoded_body__` of a form: then it is a text, not bytes
  pub is_form : Bool

abbrev pub max_ℤ : ℤ → ℤ
max_ℤ n = pos (pos_part n)

abbrev pub min_ℤ : ℤ → ℤ → ℤ
min_ℤ a b = if ltb_ℤ b a then b else a

abbrev pub bad_secret : String
bad_secret =
    "cf83e1357eefb8bdf1542850d66d8007d620e4050b5715dc83f4a921d36ce9ce47d0d13c5d85f2b0ff8318d2877eec2f63b931bd47417a81a538327af927da3e"

unfoldable pub first_given : Option String → Option String → Option String
first_given none other = other
first_given (some s) other = some s

unfoldable pub check_session : String → Option String → Result (Unit {0})
check_session session none = ok tt
check_session session (some s) = if String_eq.beq s session then ok tt else err precondition_failed

unfoldable pub check_expected_session_id : String → Request → Result (Unit {0})
check_expected_session_id session r =
    check_session session (first_given (given r.session_id) r.expected_session_id)

-- `max(limit, 0)` and `max(offset, 0)`, and no more than the configuration allows.
unfoldable pub validate_pagination_params : Limits → ℤ → ℤ → ℤ × ℤ
validate_pagination_params c offset limit =
    (max_ℤ offset, min_ℤ (max_ℤ limit) c.pagination_max_limit)

module _ {A : Type 0} (l : Library A) where
  abbrev pub number : Option ℤ → Result ℤ
  number none = err bad_request
  number (some i) = ok i

  -- The argument of the query, or the default of the configuration.
  abbrev pub query_int : Option String → ℤ → Result ℤ
  query_int none default = ok default
  query_int (some s) default = number (l.int s)

  unfoldable pub get_pagination_params : Limits → Option String → Option String → Result (ℤ × ℤ)
  unfolding validate_pagination_params
  get_pagination_params c offset limit = do
    o ← query_int offset c.pagination_offset
    n ← query_int limit c.pagination_limit
    ok (validate_pagination_params c o n)

  abbrev pub get_default : String → ℕ
  get_default uri = elim (l.first_uri_component uri) [
    | none ↦ 2
    | some part ↦ if String_eq.beq part "v1" then 1 else 2
  ]

  unfoldable pub resolve_version : Option String → String → ℕ
  resolve_version none uri = get_default uri
  resolve_version (some accept) uri = elim (l.header_version accept) [
    | none ↦ get_default uri
    | some v ↦ if v == 1 || v == 2 then v else get_default uri
  ]

  -- The secret that is stored.
  unfoldable pub set_secret : String → Result String
  set_secret secret =
      if l.len secret == 0
      then err insecure_secret
      else if ltb (l.len secret) 8
      then err insecure_secret
      else if String_eq.beq secret bad_secret
      then err insecure_secret
      else ok secret

  abbrev pub or_empty : Option String → String
  or_empty none = ""
  or_empty (some s) = s

  -- `hmac.compare_digest` raises for a text that is not ASCII.
  unfoldable pub digest_is_valid : String → Option String → String → Result Bool
  digest_is_valid secret received message =
      if l.is_ascii (or_empty received)
      then ok (String_eq.beq (or_empty received) (l.hex_digest message secret))
      else err type_error

  -- The decoded body; an empty one is none.
  abbrev pub decoded_body : String → Result A
  decoded_body body =
      if String_eq.beq body ""
      then ok l.no_body
      else elim (l.json_decode body) [ none ↦ err bad_request | some a ↦ ok a ]

  unfoldable pub prepare_request : String → Request → Result A
  unfolding check_expected_session_id
  prepare_request session r = check_expected_session_id session r >> decoded_body r.encoded_body

  abbrev pub if_valid : Result Bool → Result (Unit {0})
  if_valid (err e) = err e
  if_valid (ok true) = ok tt
  if_valid (ok false) = err authentication_error

  -- A text has no method `decode`.
  unfoldable pub authenticate : Bool → String → Request → Result (Unit {0})
  unfolding digest_is_valid
  authenticate is_authenticated secret r =
      if not is_authenticated
      then ok tt
      else if r.is_form
      then err attribute_error
      else if_valid (digest_is_valid secret r.digest r.encoded_body)

  -- A handler is called with the decoded body, and answers with a status of its own or raises.
  unfoldable pub answered : {S : Type 0} → S × Result ℕ → S × ℕ
  answered (s, ok status) = (s, status)
  answered (s, err e) = (s, status_code e)

  unfoldable pub checked :
      {S : Type 0} → Result A → Result (Unit {0}) → (A → S → S × Result ℕ) → S → S × ℕ
  unfolding answered
  checked (err e) allowed handler s = (s, status_code e)
  checked (ok body) (err e) handler s = (s, status_code e)
  checked (ok body) (ok u) handler s = answered (handler body s)

  unfoldable pub serve :
      {S : Type 0} → Bool → String → String → (A → S → S × Result ℕ) → Request → S → S × ℕ
  unfolding prepare_request authenticate checked
  serve is_authenticated session secret handler r s =
      checked (prepare_request session r) (authenticate is_authenticated secret r) handler s
