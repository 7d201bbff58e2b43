-- ===== src/Handler/Service/Entitled.antt =====
-- internal/handler/api.go: a session goes back to the bootstrap token and the shared secret.
use fileflow.Common.{Bytes, List, ap, inl, inr, some, sym, true, ℕ, ◌∙◌, ◌≡◌}
use fileflow.Common.Result.{ok}
use fileflow.Limit.{RateLimit}
use fileflow.Auth.Platform.{Platform}
use fileflow.Handler.Proxy.{Net}
use fileflow.Handler.Http.{Request, Response, authed, method_not_allowed, write_error, write_json}
use fileflow.Handler.Api.{Handler}
use fileflow.Handler.Api.Users.{LoginBody, handle_login}
use fileflow.Store.{Database, Device}
use fileflow.Store.Rows.{DatabaseLaws}
use fileflow.Auth.Secret.{verify_secret}
use fileflow.Handler.Service.{Served, World, logs_in, serve}
use fileflow.Handler.Service.Ledger.{Asks, DevicesAccounted, WasEnrolled}
use fileflow.Handler.Service.Earned.{IsEmpty, Served-IsAccounted}
use fileflow.Handler.Api.Evidence.{IsTicketed}
use fileflow.Handler.Api.Logins.{IsLogin, handle_login-IsLogin}

module _ (p : Platform) (db : Database) (rl : RateLimit) (net : Net) (h : Handler) where
  -- What a request to log in has shown.
  pub record IsEntitled (asks : Asks p db rl net h) (r : Request LoginBody) (now : ℕ) : Type 0 where
    pub body : LoginBody
    pub read : r.body ≡ some body
    pub device : Device
    pub own_device : device.device_id ≡ body.device_id
    pub enrolled : WasEnrolled p db rl net h asks device
    pub ticketed : IsTicketed p h r.cookies now body.device_id
    pub right : verify_secret p body.secret h.secret_hash ≡ ok tt

  IsLogin-IsEntitled :
      (w : World p db rl net h) (asks : Asks p db rl net h)
      → DevicesAccounted p db rl net h w.devices asks
      → (r : Request LoginBody) (uuid : Bytes) (now : ℕ) (response : Response)
      → response.answer ≡ authed true
      → IsLogin p db h r uuid now w.devices response
      → IsEntitled asks r now
  unfolding write_json
  IsLogin-IsEntitled w asks known r uuid now response good login = elim login.result [
    | inl (wrong, same) ↦ absurd (cc (ap (λ (x : Response). x.answer) (sym same) ∙ good))
    | inr (token, right, signed, _, cookie) ↦
        let (own, was) =
          known login.body.device_id login.from_device.device login.from_device.enrolled in
        record {
          body = login.body;
          read = login.read;
          device = login.from_device.device;
          own_device = own;
          enrolled = was;
          ticketed = login.from_device.ticketed;
          right = right;
        }
  ]

  -- On a server that started with no device and no challenge, whatever requests have come in, a login
  -- that is answered with "authenticated" comes from a device that one of these requests enrolled
  -- with the bootstrap token, with a genuine ticket for this device, and with the shared secret.
  pub authed-IsEntitled :
      DatabaseLaws db
      → (ttl : ℕ) (start w : World p db rl net h) (asks : Asks p db rl net h)
      → IsEmpty p db rl net h ttl start
      → Served p db rl net h start w asks
      → (trusted : List net.Network) (r : Request LoginBody) (uuid : Bytes) (now : ℕ)
        (response : Response)
      → (serve p db rl net h w (logs_in trusted r uuid now)).0 ≡ some response
      → response.answer ≡ authed true
      → IsEntitled asks r now
  unfolding serve write_error write_json method_not_allowed
  authed-IsEntitled laws ttl start w asks empty served trusted r uuid now response e good =
      let k = Served-IsAccounted p db rl net h laws ttl start w asks empty served in
      let made = handle_login p db rl net h trusted r uuid now w.devices w.logins in
      let same : made.0 ≡ response = cc in
      let fine : made.0.answer ≡ authed true = ap (λ (x : Response). x.answer) same ∙ good in
      elim (handle_login-IsLogin p db rl net h trusted r uuid now w.devices w.logins) [
        | inl (_, refused, _) ↦ cc
        | inr (_, _, inl ((code, message, refused, _), _)) ↦ cc
        | inr (_, _, inr (_, login)) ↦
            IsLogin-IsEntitled w asks k.devices r uuid now made.0 fine login
      ]
