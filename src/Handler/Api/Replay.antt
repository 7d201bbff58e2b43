-- ===== src/Handler/Api/Replay.antt =====
-- internal/handler/api.go: what a captured answer to a challenge is worth.
use fileflow.Common.{
  All, Bytes, List, Option, [], inl, inr, lookup, none, refl, ℕ, ◌∙◌, ◌∷◌, ◌≡◌, ◌≢◌, bytes_key,
}
use fileflow.Auth.Platform.{Platform}
use fileflow.Auth.Challenge.{ChallengeStore, challenge_not_found, cleanup, consume, create}
use fileflow.Auth.Challenge.Once.{
  call, call-none, cleans, consume_missing, consumed-none, consumes, creates,
}
use fileflow.Handler.Http.{Request, write_error}
use fileflow.Handler.Api.{Handler}
use fileflow.Handler.Api.Devices.{
  AttestBody, ChallengeBody, attest_body, challenge_answer, consume_error, device_to_challenge,
  handle_device_attest, handle_device_challenge, ticket_answer, ticket_for,
}
use fileflow.Store.{Database}
use fileflow.Common.Result.{Result-cases, err, ok}

module _ (p : Platform) (db : Database) (h : Handler) where
  -- What reaches the store of challenges: the two handlers, each with the database as it then is, and
  -- the cleaning each minute.
  pub data Ask : Type 0 where
    attests : Request AttestBody → (now : ℕ) → db.State → Ask
    challenges :
        Request ChallengeBody
        → (random : Option Bytes) → (uuid : Bytes) → (now : ℕ) → db.State
        → Ask
    sweeps : (now : ℕ) → Ask

  pub serve : ChallengeStore → Ask → ChallengeStore
  serve cs (attests r now s) = (handle_device_attest p db h r now s cs).1
  serve cs (challenges r random uuid now s) =
      (handle_device_challenge p db h r random uuid now s cs).1
  serve cs (sweeps now) = cleanup cs now

  pub serve_all : ChallengeStore → List Ask → ChallengeStore
  serve_all cs [] = cs
  serve_all cs (a ∷ asks) = serve_all (serve cs a) asks

  -- No new challenge gets this identifier; identifiers are fresh UUIDs.
  abbrev pub Renews : Bytes → Ask → Type 0
  Renews id (attests r now s) = Unit
  Renews id (challenges r random uuid now s) = uuid ≢ id
  Renews id (sweeps now) = Unit

  taken_in :
      (r : Request AttestBody) (now : ℕ) (s : db.State) (cs : ChallengeStore) (body : AttestBody)
      → attest_body p db h r ≡ ok body
      → handle_device_attest p db h r now s cs ≡ (
        ticket_answer p db h
            (ticket_for p db h body (consume cs body.challenge_id now).0 now s)
            now,
        (consume cs body.challenge_id now).1,
      )
  unfolding handle_device_attest
  taken_in r now s cs body e = rw (e, handle_device_attest) refl

  attest_store :
      (r : Request AttestBody) (now : ℕ) (s : db.State) (cs : ChallengeStore) (id : Bytes)
      → lookup id cs.challenges ≡ none
      → lookup id (handle_device_attest p db h r now s cs).1.challenges ≡ none
  unfolding handle_device_attest call
  attest_store r now s cs id e = elim (Result-cases (attest_body p db h r)) [
    | inl (body, f) ↦
        rw (taken_in r now s cs body f) (call-none id cs (consumes body.challenge_id now) tt e)
    | inr (answer, f) ↦
        let q : handle_device_attest p db h r now s cs ≡ (answer, cs) =
          rw (f, handle_device_attest) refl in
        rw q e
  ]

  challenge_store :
      (r : Request ChallengeBody) (random : Option Bytes) (uuid : Bytes) (now : ℕ) (s : db.State)
      (cs : ChallengeStore) (id : Bytes)
      → uuid ≢ id
      → lookup id cs.challenges ≡ none
      → lookup id (handle_device_challenge p db h r random uuid now s cs).1.challenges ≡ none
  unfolding handle_device_challenge call
  challenge_store r random uuid now s cs id n e =
      elim (Result-cases (device_to_challenge p db h r s)) [
        | inl (device_id, f) ↦
            let (result, cs') = create cs device_id random uuid now in
            let q : handle_device_challenge p db h r random uuid now s cs
                ≡ (challenge_answer p db h result, cs') =
              rw (f, handle_device_challenge) refl in
            rw q (call-none id cs (creates device_id random uuid now) n e)
        | inr (answer, f) ↦
            let q : handle_device_challenge p db h r random uuid now s cs ≡ (answer, cs) =
              rw (f, handle_device_challenge) refl in
            rw q e
      ]

  serve-none :
      (id : Bytes) (cs : ChallengeStore) (a : Ask)
      → Renews id a
      → lookup id cs.challenges ≡ none
      → lookup id (serve cs a).challenges ≡ none
  unfolding serve call
  serve-none id cs (attests r now s) n e = attest_store r now s cs id e
  serve-none id cs (challenges r random uuid now s) n e =
      challenge_store r random uuid now s cs id n e
  serve-none id cs (sweeps now) n e = call-none id cs (cleans now) tt e

  serve_all-none :
      (id : Bytes) (cs : ChallengeStore) (asks : List Ask)
      → All (Renews id) asks
      → lookup id cs.challenges ≡ none
      → lookup id (serve_all cs asks).challenges ≡ none
  unfolding serve_all
  serve_all-none id cs [] n e = e
  serve_all-none id cs (a ∷ asks) (n, ns) e =
      serve_all-none id (serve cs a) asks ns (serve-none id cs a n e)

  -- Once a request to attest has been taken in for a challenge, whether it got a ticket or not,
  -- no later request for that challenge gets one, be it the same or another, whatever requests
  -- come in between: the answer is that the challenge has expired.
  pub handle_device_attest_once :
      (first again : Request AttestBody) (now later : ℕ) (s t : db.State) (cs : ChallengeStore)
      (asks : List Ask) (body body' : AttestBody)
      → attest_body p db h first ≡ ok body
      → attest_body p db h again ≡ ok body'
      → body'.challenge_id ≡ body.challenge_id
      → All (Renews body.challenge_id) asks
      → let cs' = serve_all (handle_device_attest p db h first now s cs).1 asks in
        handle_device_attest p db h again later t cs'
        ≡ (write_error 400 "CHALLENGE_EXPIRED" "Challenge expired", cs')
  unfolding ticket_for ticket_answer consume_error write_error
  handle_device_attest_once first again now later s t cs asks body body' e e' same n =
      let id : Bytes = body.challenge_id in
      let cs' : ChallengeStore = serve_all (handle_device_attest p db h first now s cs).1 asks in
      let gone : lookup id cs'.challenges ≡ none =
        serve_all-none id _ asks n
          (rw (taken_in first now s cs body e) (consumed-none cs id now)) in
      let q : consume cs' body'.challenge_id later ≡ (err challenge_not_found, cs') =
        rw same (consume_missing cs' id later gone) in
      taken_in again later t cs' body' e' ∙ rw (q, ticket_for) refl
