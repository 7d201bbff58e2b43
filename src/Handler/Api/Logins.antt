-- ===== src/Handler/Api/Logins.antt =====
-- internal/handler/api.go: who logs in. The tickets and sessions that the handlers accept are those
-- of the theorems on tokens.
use fileflow.Common.{
  Bool-cases, Bytes, List, Option-cases, [], bytes_beq, false, inl, inr, not, refl, some, subst,
  sym, true, ℕ, ◌+◌, ◌∙◌, ◌∷◌, ◌≡◌, ◌≢◌, ◌⊎◌, bytes_key,
}
use fileflow.Common.Result.{
  >>=-ErrIs, ErrIs, Result-cases, err, err-ne-ok, ok, ok-ErrIs, require, require-ErrIs,
}
use fileflow.Limit.{IpLimiter, RateLimit, ip_allow}
use fileflow.Handler.Proxy.{Net, get_client_ip}
use fileflow.Auth.Platform.{Platform}
use fileflow.Auth.Jwk.{validate_device_id_format}
use fileflow.Auth.Token.{TokenError, sign, version_session}
use fileflow.Auth.Secret.{verify_secret}
use fileflow.Store.{Database, get_device}
use fileflow.Handler.Http.{
  IsRefusal, Request, Response, answer_of, authed, is_post, method_not_allowed, write_error,
  write_json,
}
use fileflow.Handler.Api.{
  Handler, load_device, lookup_error-IsRefusal, map_err, map_err-ErrIs, session_name,
  ticket_error-IsRefusal, verify_device_ticket,
}
use fileflow.Handler.Api.Users.{LoginBody, handle_login, login_answer, login_device, login_response}
use fileflow.Handler.Api.Evidence.{
  IsFromDevice, login_device-IsFromDevice, login_device-from_device,
}

module _ (p : Platform) (db : Database) (h : Handler) where
  login_device-ErrIs :
      (cookies : List (Bytes × Bytes)) (body : LoginBody) (now : ℕ) (s : db.State)
      → ErrIs IsRefusal (login_device p db h cookies body now s)
  unfolding login_device load_device write_error write_json
  login_device-ErrIs cookies body now s =
      >>=-ErrIs IsRefusal (map_err _ (verify_device_ticket p h cookies now)) _
        (map_err-ErrIs IsRefusal _ (verify_device_ticket p h cookies now)
          (ticket_error-IsRefusal p h))
        (λ i.
          >>=-ErrIs IsRefusal (require (not (bytes_beq body.device_id [])) _) _
            (require-ErrIs IsRefusal _ _ (_, _, refl, refl))
            (λ _.
              >>=-ErrIs IsRefusal (require (validate_device_id_format body.device_id) _) _
                (require-ErrIs IsRefusal _ _ (_, _, refl, refl))
                (λ _.
                  >>=-ErrIs IsRefusal (require (bytes_beq body.device_id i) _) _
                    (require-ErrIs IsRefusal _ _ (_, _, refl, refl))
                    (λ _.
                      >>=-ErrIs IsRefusal (map_err _ (get_device db i s)) _
                        (map_err-ErrIs IsRefusal _ (get_device db i s) (lookup_error-IsRefusal _))
                        (λ _. ok-ErrIs IsRefusal i)))))

  -- The secret is right, but no session can be signed.
  abbrev pub IsUnsigned : Bytes → Bytes → ℕ → Type 0
  IsUnsigned secret uuid now =
      (verify_secret p secret h.secret_hash ≡ ok tt)
      × (x : TokenError) × (sign p h.token_secret uuid version_session h.session_ttl now ≡ err x)

  -- The answer to a right secret and to a wrong one.
  abbrev pub IsAnswered : Bytes → Bytes → ℕ → Response → Type 0
  IsAnswered secret uuid now response =
      ((verify_secret p secret h.secret_hash ≢ ok tt) × (response ≡ write_json 200 (authed false)))
      ⊎ ((token : Bytes) × (verify_secret p secret h.secret_hash ≡ ok tt)
          × (sign p h.token_secret uuid version_session h.session_ttl now ≡ ok token)
          × (response.answer ≡ authed true)
          × (response.set_cookies
              ≡ record {
                name = session_name;
                value = token;
                expires = now + h.session_ttl;
                http_only = true;
                secure = h.secure_cookies;
              }
                ∷ []))

  login_answer-IsAnswered :
      (secret uuid : Bytes) (now : ℕ)
      → (IsRefusal (login_answer p db h secret uuid now) × IsUnsigned secret uuid now)
        ⊎ IsAnswered secret uuid now (login_answer p db h secret uuid now)
  unfolding login_answer write_error write_json
  login_answer-IsAnswered secret uuid now =
      elim (Result-cases (verify_secret p secret h.secret_hash)) [
        | inr (x, e) ↦ rw (login_answer, e) (inr (inl (λ q. cc, refl)))
        | inl (u, e) ↦
            elim (Result-cases (sign p h.token_secret uuid version_session h.session_ttl now)) [
              | inr (x, f) ↦ rw (login_answer, e, f) (inl ((_, _, refl, refl), (refl, x, refl)))
              | inl (token, f) ↦ rw (login_answer, e, f) (inr (inr (token, refl, refl, refl, refl)))
            ]
      ]

  -- A login that is not refused, for the answer to it.
  pub record IsLogin (r : Request LoginBody) (uuid : Bytes) (now : ℕ) (s : db.State)
      (response : Response) : Type 0 where
    pub body : LoginBody
    pub read : r.body ≡ some body
    pub from_device : IsFromDevice p db h r.cookies now s body.device_id
    pub result : IsAnswered body.secret uuid now response

  -- A login that may be refused, with any use of the limiter: if it has a body and comes from an
  -- enrolled device with its ticket, then the secret is right and no session can be signed.
  abbrev pub MayRefuse : Request LoginBody → Bytes → ℕ → db.State → Type 0
  MayRefuse r uuid now s =
      (body : LoginBody)
      → r.body ≡ some body
      → IsFromDevice p db h r.cookies now s body.device_id
      → IsUnsigned body.secret uuid now

  not_refused :
      (r : Request LoginBody) (body other : LoginBody) (now : ℕ) (s : db.State) (x : Response)
      → r.body ≡ some body
      → r.body ≡ some other
      → login_device p db h r.cookies body now s ≡ err x
      → IsFromDevice p db h r.cookies now s other.device_id
      → ⊥
  not_refused r body other now s x e q f from_device =
      let its : body ≡ other = cc (e, q) in
      let own =
        subst (λ (b : LoginBody). IsFromDevice p db h r.cookies now s b.device_id) (sym its)
          from_device in
      err-ne-ok (sym f ∙ login_device-from_device p db h r.cookies body now s own)

  login_response-IsLogin :
      (r : Request LoginBody) (uuid : Bytes) (now : ℕ) (s : db.State)
      → let response = answer_of (login_response p db h r uuid now s) in
        (IsRefusal response × MayRefuse r uuid now s) ⊎ IsLogin r uuid now s response
  unfolding login_response write_error write_json
  login_response-IsLogin r uuid now s = elim (Option-cases r.body) [
    | inl missing ↦ rw (login_response, missing) (inl ((_, _, refl, refl), λ body e. cc e))
    | inr (body, e) ↦ elim (Result-cases (login_device p db h r.cookies body now s)) [
      | inr (x, f) ↦
          let left : login_response p db h r uuid now s ≡ err x = rw (login_response, e, f) in
          rw left (
            inl (
              login_device-ErrIs r.cookies body now s x f,
              λ other q from_device. absurd (not_refused r body other now s x e q f from_device),
            ))
      | inl (id, f) ↦
          let answer : Response = login_answer p db h body.secret uuid now in
          let reached : login_response p db h r uuid now s ≡ ok answer =
            rw (login_response, e, f) in
          let (from_device, same) = login_device-IsFromDevice p db h r.cookies body now s id f in
          elim (login_answer-IsAnswered body.secret uuid now) [
            | inl (refused, unsigned) ↦ rw reached (
                inl (
                  refused,
                  λ other q from_device.
                      let its : body ≡ other = cc (e, q) in
                      subst (λ (x : LoginBody). IsUnsigned x.secret uuid now) its unsigned,
                ))
            | inr good ↦ rw reached (
                inr (record {
                  body = body;
                  read = e;
                  from_device = rw same from_device;
                  result = good;
                }))
          ]
    ]
  ]

module _ (p : Platform) (db : Database) (rl : RateLimit) (net : Net) (h : Handler) where
  abbrev pub LoginOutcome :
      List net.Network
      → Request LoginBody
      → Bytes
      → ℕ
      → db.State
      → IpLimiter rl
      → Response
      → IpLimiter rl
      → Type 0
  LoginOutcome trusted r uuid now s l response l' =
      let (allowed, used) = ip_allow rl l (get_client_ip net trusted r.origin) now in
      ((is_post r.method ≡ false) × (response ≡ method_not_allowed) × (l' ≡ l))
      ⊎ ((is_post r.method ≡ true)
          × (l' ≡ used)
          × ((IsRefusal response × ((allowed ≡ false) ⊎ MayRefuse p db h r uuid now s))
              ⊎ ((allowed ≡ true) × IsLogin p db h r uuid now s response)))

  -- A login that is not posted leaves the limiter alone. Any other uses up one request of its
  -- client's address. If the limiter lets it pass, and it has a body and comes from an enrolled device
  -- with a genuine ticket for the same id, then it is answered: that the user is not authenticated,
  -- without a cookie, if the secret is wrong; and that the user is authenticated, with the one cookie
  -- of a signed session, if it is right, unless the signing fails. In every other case it is refused,
  -- without a cookie.
  pub handle_login-IsLogin :
      (trusted : List net.Network) (r : Request LoginBody) (uuid : Bytes) (now : ℕ) (s : db.State)
      (l : IpLimiter rl)
      → let (response, l') = handle_login p db rl net h trusted r uuid now s l in
        LoginOutcome trusted r uuid now s l response l'
  unfolding handle_login write_error write_json
  handle_login-IsLogin trusted r uuid now s l = elim (Bool-cases (is_post r.method)) [
    | inr other ↦ rw (handle_login, other) (inl (refl, refl, refl))
    | inl posted ↦ elim (Bool-cases (ip_allow rl l (get_client_ip net trusted r.origin) now).0) [
      | inr limited ↦
          rw (handle_login, posted, limited) (inr (refl, refl, inl ((_, _, refl, refl), inl refl)))
      | inl allowed ↦ elim (login_response-IsLogin p db h r uuid now s) [
        | inl (refused, may) ↦
            rw (handle_login, posted, allowed) (inr (refl, refl, inl (refused, inr may)))
        | inr good ↦ rw (handle_login, posted, allowed) (inr (refl, refl, inr (refl, good)))
      ]
    ]
  ]
