-- ===== src/WebFramework/Handler/Rejecting.antt =====
-- Which requests reach their handlers, and what pages a client may ask for.
use cluster_runner_jie.Prelude.{
  ℕ, Bool, true, false, Option, none, some, String, ◌≡◌, ◌≢◌, ◌⊎◌, inl, inr, refl, ap, ◌∙◌, arith,
  Bool-cases,
}
use cluster_runner_jie.Prelude.Dict.{String_eq}
use cluster_runner_jie.Errors.{
  Error, bad_request, authentication_error, precondition_failed, type_error, attribute_error,
  Result, ok, err, ◌>>◌,
}
use cluster_runner_jie.WebFramework.Handler.{
  Library, Request, given, or_empty, decoded_body, check_expected_session_id, check_session,
  first_given, prepare_request, authenticate, answered, digest_is_valid, checked, serve,
}

not_same : (x y : String) → x ≢ y → String_eq.beq x y ≡ false
not_same x y n = elim (Bool-cases (String_eq.beq x y)) [
  | inl q ↦ absurd (n ((String_eq.beq_iff x y).0 q))
  | inr q ↦ q
]

module _ {A : Type 0} (l : Library A) where
  -- What the checks before a handler may come to.
  abbrev pub IsRefusal : ℕ → Type 0
  IsRefusal status = (status ≡ 401) ⊎ ((status ≡ 400) ⊎ ((status ≡ 412) ⊎ (status ≡ 500)))

  -- The session that a request asks for: the older header comes first.
  abbrev pub AsksFor : Request → String → Type 0
  AsksFor r i =
      (given r.session_id ≡ some i) ⊎ (given r.session_id ≡ none × r.expected_session_id ≡ some i)

  abbrev pub AsksForNone : Request → Type 0
  AsksForNone r = given r.session_id ≡ none × r.expected_session_id ≡ none

  abbrev asked : Request → Option String
  asked r = first_given (given r.session_id) r.expected_session_id

  AsksFor-asked : (r : Request) (i : String) → AsksFor r i → asked r ≡ some i
  unfolding first_given
  AsksFor-asked r i (inl e) = ap (λ o. first_given o r.expected_session_id) e
  AsksFor-asked r i (inr (e, q)) = ap (λ o. first_given o r.expected_session_id) e ∙ q

  AsksForNone-asked : (r : Request) → AsksForNone r → asked r ≡ none
  unfolding first_given
  AsksForNone-asked r (e, q) = ap (λ o. first_given o r.expected_session_id) e ∙ q

  by_session :
      (session : String) (r : Request) (o : Option String)
      → asked r ≡ o
      → prepare_request l session r ≡ check_session session o >> decoded_body l r.encoded_body
  unfolding prepare_request check_expected_session_id
  by_session session r o e = ap (λ q. check_session session q >> decoded_body l r.encoded_body) e

  session_refused :
      (session : String) (r : Request) (i : String)
      → AsksFor r i
      → i ≢ session
      → prepare_request l session r ≡ err precondition_failed
  unfolding check_session
  session_refused session r i e n =
      let no : check_session session (some i) ≡ err precondition_failed =
        rw (not_same i session n) refl in
      by_session session r (some i) (AsksFor-asked r i e)
      ∙ ap (λ p. p >> decoded_body l r.encoded_body) no

  prepare_request-errors :
      (session : String) (r : Request) (e : Error)
      → prepare_request l session r ≡ err e
      → (e ≡ bad_request) ⊎ (e ≡ precondition_failed)
  unfolding prepare_request check_session
  prepare_request-errors session r e q = ground arith

  -- The errors of an authentication that fails.
  abbrev IsDenied : Result (Unit {0}) → Type 0
  IsDenied o = (o ≡ err authentication_error) ⊎ ((o ≡ err type_error) ⊎ (o ≡ err attribute_error))

  form-IsDenied :
      (secret : String) (r : Request) → r.is_form ≡ true → IsDenied (authenticate l true secret r)
  unfolding authenticate
  form-IsDenied secret r e = rw e (inr (inr refl))

  digest-IsDenied :
      (secret : String) (r : Request)
      → or_empty l r.digest ≢ l.hex_digest r.encoded_body secret
      → IsDenied (authenticate l true secret r)
  unfolding authenticate digest_is_valid
  digest-IsDenied secret r n = elim (Bool-cases r.is_form) [
    | inl f ↦ rw f (inr (inr refl))
    | inr f ↦ elim (Bool-cases (l.is_ascii (or_empty l r.digest))) [
      | inl q ↦ rw (f, q, not_same _ _ n) (inl refl)
      | inr q ↦ rw (f, q) (inr (inl refl))
    ]
  ]

  digest_accepted :
      (secret : String) (r : Request) (is_authenticated : Bool)
      → r.digest ≡ some (l.hex_digest r.encoded_body secret)
      → l.is_ascii (l.hex_digest r.encoded_body secret) ≡ true
      → r.is_form ≡ false
      → authenticate l is_authenticated secret r ≡ ok tt
  unfolding authenticate digest_is_valid
  digest_accepted secret r true e q f =
      rw
        (
          f,
          e,
          q,
          (String_eq.beq_iff (l.hex_digest r.encoded_body secret)
                (l.hex_digest r.encoded_body secret)).1
              refl,
        )
        refl
  digest_accepted secret r false e q f = refl

  request_accepted :
      (session : String) (r : Request) (a : A)
      → AsksFor r session ⊎ AsksForNone r
      → decoded_body l r.encoded_body ≡ ok a
      → prepare_request l session r ≡ ok a
  unfolding check_session
  request_accepted session r a (inl e) d =
      let yes' : check_session session (some session) ≡ ok tt =
        rw ((String_eq.beq_iff session session).1 refl) refl in
      by_session session r (some session) (AsksFor-asked r session e)
      ∙ ap (λ p. p >> decoded_body l r.encoded_body) yes'
      ∙ d
  request_accepted session r a (inr e) d = by_session session r none (AsksForNone-asked r e) ∙ d

  module _ {S : Type 0} (session secret : String) (handler : A → S → S × Result ℕ) (r : Request)
      (s : S) where
    refused :
        (p : Result A) (o : Result (Unit {0}))
        → ((e : Error) → p ≡ err e → (e ≡ bad_request) ⊎ (e ≡ precondition_failed))
        → IsDenied o
        → (checked l p o handler s).0 ≡ s × IsRefusal (checked l p o handler s).1
    unfolding checked
    refused (ok a) o h (inl d) = rw d (refl, inl refl)
    refused (ok a) o h (inr (inl d)) = rw d (refl, inr (inr (inr refl)))
    refused (ok a) o h (inr (inr d)) = rw d (refl, inr (inr (inr refl)))
    refused (err e) o h d = elim (h e refl) [
      | inl q ↦ rw q (refl, inr (inl refl))
      | inr q ↦ rw q (refl, inr (inr (inl refl)))
    ]

    -- A request that must be authenticated changes nothing if its digest is not that of its body
    -- under the secret, or if its body was sent in a form, and is answered with 401, 400, 412 or 500,
    -- whatever else it holds. One that asks for another session, by either header, changes nothing
    -- and is answered with 412. One that asks for this session or for none, with a body that can be
    -- read, was not sent in a form and has this digest (in ASCII), reaches the handler with that body.
    pub serve_lem :
        (is_authenticated : Bool)
        → let x = serve l is_authenticated session secret handler r s in
          (is_authenticated ≡ true
            → or_empty l r.digest ≢ l.hex_digest r.encoded_body secret
            → x.0 ≡ s × IsRefusal x.1)
          × (is_authenticated ≡ true → r.is_form ≡ true → x.0 ≡ s × IsRefusal x.1)
          × ((i : String) → AsksFor r i → i ≢ session → x ≡ (s, 412))
          × ((a : A)
              → AsksFor r session ⊎ AsksForNone r
              → decoded_body l r.encoded_body ≡ ok a
              → r.digest ≡ some (l.hex_digest r.encoded_body secret)
              → l.is_ascii (l.hex_digest r.encoded_body secret) ≡ true
              → r.is_form ≡ false
              → x ≡ answered l (handler a s))
    unfolding serve
    serve_lem is_authenticated = (
      λ e n. rw e (
          refused (prepare_request l session r) (authenticate l true secret r)
            (prepare_request-errors session r) (digest-IsDenied secret r n)),
      λ e f. rw e (
          refused (prepare_request l session r) (authenticate l true secret r)
            (prepare_request-errors session r) (form-IsDenied secret r f)),
      λ i e n. rw (session_refused session r i e n) refl,
      λ a e d q t f.
          rw (request_accepted session r a e d, digest_accepted secret r is_authenticated q t f)
            refl,
    )
