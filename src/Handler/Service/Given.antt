-- ===== src/Handler/Service/Given.antt =====
-- internal/handler/api.go: which tokens the answers give out.
use fileflow.Common.{All, Bytes, List, ap, arith, inl, inr, refl, ℕ, ◌<◌, ◌∙◌, ◌∷◌, ◌≡◌}
use fileflow.Handler.Service.Entitled.{authed-IsEntitled}
use fileflow.Handler.Service.Origins.{
  AsciiIds, AsciiIds-earlier, GaveOut, Gives, HasOrigin, HasOrigin-later, Sets, plain, single,
}
use fileflow.Handler.Api.Challenges.{handle_device_challenge_plain}
use fileflow.Handler.Api.Logins.{handle_login-IsLogin}
use fileflow.Handler.Api.Admission.{format-ascii}
use fileflow.Auth.Session.{device_ticket_cookie}
use fileflow.Common.Result.{ok}
use fileflow.Limit.{RateLimit}
use fileflow.Auth.Platform.{Platform}
use fileflow.Handler.Proxy.{Net}
use fileflow.Handler.Http.{Request, Response, method_not_allowed, write_error, write_json}
use fileflow.Handler.Api.{Handler}
use fileflow.Handler.Api.Devices.{AttestBody, EnrollBody, handle_admin_devices}
use fileflow.Handler.Api.Users.{LoginBody}
use fileflow.Handler.Api.Enrollment.{handle_admin_devices-MayEnroll}
use fileflow.Handler.Api.Tickets.{handle_device_attest-IsAttested}
use fileflow.Store.{Database}
use fileflow.Store.Rows.{DatabaseLaws}
use fileflow.Handler.Service.{
  Served, World, asked, attests, enrolls, logs_in, opened, seeks_challenge, serve, sweeps,
}
use fileflow.Handler.Service.Ledger.{Asks}
use fileflow.Handler.Service.Earned.{IsEmpty, device_ok-IsEarned}

module _ (p : Platform) (db : Database) (rl : RateLimit) (net : Net) (h : Handler) where
  enrolls-Sets :
      (r : Request EnrollBody) (now : ℕ) (s : db.State) (token : Bytes)
      → Sets p db rl net h (handle_admin_devices p db h r now s).0.set_cookies token
      → ⊥
  unfolding write_json
  enrolls-Sets r now s token given = elim (handle_admin_devices-MayEnroll p db h r now s) [
    | inl ((_, _, _, bare), _, _) ↦ plain p db rl net h _ token bare given
    | inr (d, may, _, inl (_, same)) ↦
        plain p db rl net h _ token (ap (λ (x : Response). x.set_cookies) same) given
    | inr (d, may, _, inr (_, (_, _, _, bare))) ↦ plain p db rl net h _ token bare given
  ]

  module _ (laws : DatabaseLaws db) (ttl : ℕ) (start : World p db rl net h)
      (empty : IsEmpty p db rl net h ttl start) where
    attests-HasOrigin :
        (w : World p db rl net h) (asks : Asks p db rl net h)
        → Served p db rl net h start w asks
        → (r : Request AttestBody) (now : ℕ) (token : Bytes)
        → Gives p db rl net h (serve p db rl net h w (attests r now)).0 token
        → HasOrigin p db rl net h start (attests r now ∷ asks) token
    unfolding serve device_ticket_cookie
    attests-HasOrigin w asks served r now token given =
        elim (handle_device_attest-IsAttested p db h r now w.devices w.challenges) [
          | inl ((_, _, _, bare), _, _) ↦ absurd (plain p db rl net h _ token bare given)
          | inr (body, readable, _, inl ((_, _, _, bare), _)) ↦
              absurd (plain p db rl net h _ token bare given)
          | inr (body, readable, _, inr (ticket, attested, signed, good, one)) ↦
              let earned =
                device_ok-IsEarned p db rl net h laws ttl start w asks empty served r now _ refl
                  good in
              let own : earned.body ≡ body = cc (earned.read, readable.read) in
              let same : ticket ≡ token = single p db rl net h _ _ token one given in
              inl (
                body.device_id,
                now,
                inl (earned, ap (λ (x : AttestBody). x.device_id) own),
                format-ascii body.device_id (ground (arith, readable.well_formed)),
                signed ∙ ap ok same,
              )
        ]

    logs_in-HasOrigin :
        (w : World p db rl net h) (asks : Asks p db rl net h)
        → Served p db rl net h start w asks
        → (trusted : List net.Network) (r : Request LoginBody) (uuid : Bytes) (now : ℕ)
          (token : Bytes)
        → All (λ b. b < 128) uuid
        → Gives p db rl net h (serve p db rl net h w (logs_in trusted r uuid now)).0 token
        → HasOrigin p db rl net h start (logs_in trusted r uuid now ∷ asks) token
    unfolding serve write_error write_json method_not_allowed
    logs_in-HasOrigin w asks served trusted r uuid now token ascii given =
        elim (handle_login-IsLogin p db rl net h trusted r uuid now w.devices w.logins) [
          | inl (_, same, _) ↦
              absurd (plain p db rl net h _ token (ap (λ (x : Response). x.set_cookies) same) given)
          | inr (_, _, inl ((_, _, _, bare), _)) ↦ absurd (plain p db rl net h _ token bare given)
          | inr (_, _, inr (_, login)) ↦ elim login.result [
            | inl (wrong, same) ↦
                absurd
                  (plain p db rl net h _ token (ap (λ (x : Response). x.set_cookies) same) given)
            | inr (session, right, signed, good, one) ↦
                let entitled =
                  authed-IsEntitled p db rl net h laws ttl start w asks empty served trusted r uuid
                    now _ refl good in
                let same : session ≡ token = single p db rl net h _ _ token one given in
                inr (uuid, now, inl (entitled, refl), ascii, signed ∙ ap ok same)
          ]
        ]

    -- Every token that the server gave out has an origin.
    pub GaveOut-HasOrigin :
        (w : World p db rl net h) (asks : Asks p db rl net h)
        (served : Served p db rl net h start w asks) (token : Bytes)
        → AsciiIds p db rl net h asks
        → GaveOut p db rl net h served token
        → HasOrigin p db rl net h start asks token
    unfolding serve
    GaveOut-HasOrigin w asks opened token ascii given = absurd given
    GaveOut-HasOrigin w asks (asked {w = v} {asks = older} a served) token ascii (inr before) =
        HasOrigin-later p db rl net h start a older token (
          GaveOut-HasOrigin v older served token (AsciiIds-earlier p db rl net h a older ascii)
            before)
    GaveOut-HasOrigin w asks (asked {w = v} {asks = older} (enrolls r now) served) token ascii
          (inl given) =
        absurd (enrolls-Sets r now v.devices token given)
    GaveOut-HasOrigin w asks
          (asked {w = v} {asks = older} (seeks_challenge r random uuid now) served) token ascii
          (inl given) =
        absurd (
          plain p db rl net h _ token
            (handle_device_challenge_plain p db h r random uuid now v.devices v.challenges) given)
    GaveOut-HasOrigin w asks (asked {w = v} {asks = older} (attests r now) served) token ascii
          (inl given) =
        attests-HasOrigin v older served r now token given
    GaveOut-HasOrigin w asks (asked {w = v} {asks = older} (logs_in trusted r uuid now) served)
          token ascii (inl given) =
        logs_in-HasOrigin v older served trusted r uuid now token ascii.0 given
    GaveOut-HasOrigin w asks (asked {w = v} {asks = older} (sweeps now) served) token ascii
          (inl given) =
        absurd given
