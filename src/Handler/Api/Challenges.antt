-- ===== src/Handler/Api/Challenges.antt =====
-- internal/handler/api.go, `handleDeviceChallenge`: its answers.
use fileflow.Common.{Bytes, Option, [], inl, inr, refl, ℕ, ◌≡◌}
use fileflow.Common.Result.{
  >>=-ErrIs, ErrIs, Result, Result-cases, err, ok, ok-ErrIs, require, require-ErrIs, some_or,
  some_or-ErrIs,
}
use fileflow.Auth.Platform.{Platform}
use fileflow.Auth.Challenge.{Challenge, ChallengeError, ChallengeStore, create}
use fileflow.Handler.Http.{IsRefusal, Request, is_post, method_not_allowed, write_error, write_json}
use fileflow.Handler.Api.{Handler, load_device, lookup_error-IsRefusal, map_err, map_err-ErrIs}
use fileflow.Handler.Api.Devices.{
  ChallengeBody, challenge_answer, device_to_challenge, handle_device_challenge,
}
use fileflow.Store.{Database, get_device}
use fileflow.Auth.Jwk.{equal_jwk, parse_jwk_bytes, parse_jwk_map, validate_device_id_format}

module _ (p : Platform) (db : Database) (h : Handler) where
  device_to_challenge-ErrIs :
      (r : Request ChallengeBody) (s : db.State) → ErrIs IsRefusal (device_to_challenge p db h r s)
  unfolding device_to_challenge load_device method_not_allowed write_error write_json
  device_to_challenge-ErrIs r s =
      >>=-ErrIs IsRefusal (require (is_post r.method) method_not_allowed) _
        (require-ErrIs IsRefusal _ _ (_, _, refl, refl))
        (λ _.
          >>=-ErrIs IsRefusal (some_or r.body _) _
            (some_or-ErrIs IsRefusal r.body _ (_, _, refl, refl))
            (λ b.
              >>=-ErrIs IsRefusal (require (validate_device_id_format b.device_id) _) _
                (require-ErrIs IsRefusal _ _ (_, _, refl, refl))
                (λ _.
                  >>=-ErrIs IsRefusal (map_err _ (parse_jwk_map p b.pub_jwk)) _
                    (map_err-ErrIs IsRefusal _ (parse_jwk_map p b.pub_jwk)
                      (λ _. (_, _, refl, refl)))
                    (λ k.
                      >>=-ErrIs IsRefusal (map_err _ (get_device db b.device_id s)) _
                        (map_err-ErrIs IsRefusal _ (get_device db b.device_id s)
                          (lookup_error-IsRefusal _))
                        (λ d.
                          >>=-ErrIs IsRefusal (map_err _ (parse_jwk_bytes p d.pub_jwk_json)) _
                            (map_err-ErrIs IsRefusal _ (parse_jwk_bytes p d.pub_jwk_json)
                              (λ _. (_, _, refl, refl)))
                            (λ j.
                              >>=-ErrIs IsRefusal (require (equal_jwk _ _) _) _
                                (require-ErrIs IsRefusal _ _ (_, _, refl, refl))
                                (λ _. ok-ErrIs IsRefusal b.device_id)))))))

  challenge_answer_plain :
      (result : Result ChallengeError Challenge) → (challenge_answer p db h result).set_cookies ≡ []
  unfolding challenge_answer write_error write_json
  challenge_answer_plain (ok c) = refl
  challenge_answer_plain (err e) = refl

  -- No answer to a request for a challenge sets a cookie.
  pub handle_device_challenge_plain :
      (r : Request ChallengeBody) (random : Option Bytes) (uuid : Bytes) (now : ℕ) (s : db.State)
      (cs : ChallengeStore)
      → (handle_device_challenge p db h r random uuid now s cs).0.set_cookies ≡ []
  unfolding handle_device_challenge
  handle_device_challenge_plain r random uuid now s cs =
      elim (Result-cases (device_to_challenge p db h r s)) [
        | inr (x, e) ↦
            let (code, message, refused, plain) = device_to_challenge-ErrIs r s x e in
            rw (handle_device_challenge, e) plain
        | inl (id, e) ↦
            rw (handle_device_challenge, e)
              (challenge_answer_plain (create cs id random uuid now).0)
      ]
