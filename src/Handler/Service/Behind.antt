-- ===== src/Handler/Service/Behind.antt =====
-- internal/handler/api.go: what stands behind a WebSocket.
use fileflow.Common.{
  Bool, Bytes, List, Option, ap, arith, inl, inr, lookup, pos, some, subst, sym, ℕ, ◌∙◌, ◌≡◌,
  bytes_key,
}
use fileflow.Handler.Service.Given.{GaveOut-HasOrigin}
use fileflow.Handler.Service.Origins.{AsciiIds, GaveOut, HasOrigin, WasAttested, WasLetIn}
use fileflow.Handler.Api.Sockets.{MayConnect, handle_web_socket-MayConnect}
use fileflow.Auth.Token.{claims_of, version_device_ticket, version_session}
use fileflow.Auth.Token.Laws.{IsGenuine}
use fileflow.Auth.Token.Origin.{IsGenuine-sign}
use fileflow.Realtime.Client.{Client, new_client}
use fileflow.Handler.Proxy.{Net, get_client_ip}
use fileflow.Common.Result.{ok}
use fileflow.Limit.{ConnLimiter, RateLimit}
use fileflow.Auth.Platform.{Claims, Platform, PlatformLaws}
use fileflow.Handler.Http.{Request}
use fileflow.Handler.Api.{Handler}
use fileflow.Handler.Api.Users.{connected, handle_web_socket}
use fileflow.Store.{Database, Device, get_device}
use fileflow.Store.Rows.{DatabaseLaws}
use fileflow.Handler.Service.{Served, World}
use fileflow.Handler.Service.Ledger.{Asks}
use fileflow.Handler.Service.Earned.{IsEmpty}

module _ (p : Platform) (plaws : PlatformLaws p) (db : Database) (rl : RateLimit) (net : Net)
    (h : Handler) where
  ticket-WasAttested :
      (start : World p db rl net h) (asks : Asks p db rl net h) (token : Bytes) (now : ℕ)
      (claims : Claims)
      → IsGenuine p h.token_secret token now claims
      → claims.ver ≡ pos version_device_ticket
      → HasOrigin p db rl net h start asks token
      → WasAttested p db rl net h start asks claims.sid
  ticket-WasAttested start asks token now claims genuine version
        (inl (id, at_time, was, ascii, signed)) =
      let same : claims ≡ claims_of id version_device_ticket h.device_ticket_ttl at_time =
        IsGenuine-sign p plaws h.token_secret id version_device_ticket h.device_ticket_ttl at_time
          now token claims ascii signed genuine in
      subst (WasAttested p db rl net h start asks) (ap (λ (c : Claims). c.sid) (sym same)) was
  ticket-WasAttested start asks token now claims genuine version
        (inr (id, at_time, was, ascii, signed)) =
      let same : claims ≡ claims_of id version_session h.session_ttl at_time =
        IsGenuine-sign p plaws h.token_secret id version_session h.session_ttl at_time now token
          claims ascii signed genuine in
      let clash : pos 1 ≡ pos 2 = ap (λ (c : Claims). c.ver) (sym same) ∙ version in
      ground (arith, clash)

  session-WasLetIn :
      (start : World p db rl net h) (asks : Asks p db rl net h) (token : Bytes) (now : ℕ)
      (claims : Claims)
      → IsGenuine p h.token_secret token now claims
      → claims.ver ≡ pos version_session
      → HasOrigin p db rl net h start asks token
      → WasLetIn p db rl net h asks claims.sid
  session-WasLetIn start asks token now claims genuine version
        (inr (id, at_time, was, ascii, signed)) =
      let same : claims ≡ claims_of id version_session h.session_ttl at_time =
        IsGenuine-sign p plaws h.token_secret id version_session h.session_ttl at_time now token
          claims ascii signed genuine in
      subst (WasLetIn p db rl net h asks) (ap (λ (c : Claims). c.sid) (sym same)) was
  session-WasLetIn start asks token now claims genuine version
        (inl (id, at_time, was, ascii, signed)) =
      let same : claims ≡ claims_of id version_device_ticket h.device_ticket_ttl at_time =
        IsGenuine-sign p plaws h.token_secret id version_device_ticket h.device_ticket_ttl at_time
          now token claims ascii signed genuine in
      let clash : pos 2 ≡ pos 1 = ap (λ (c : Claims). c.ver) (sym same) ∙ version in
      ground (arith, clash)

  -- Every cookie, under whatever name, holds a token that an answer has set.
  abbrev pub IsHonest :
      {start w : World p db rl net h} {asks : Asks p db rl net h}
      → Served p db rl net h start w asks
      → List (Bytes × Bytes)
      → Type 0
  IsHonest served cookies =
      (name token : Bytes) → lookup name cookies ≡ some token → GaveOut p db rl net h served token

  -- What stands behind a client.
  pub record IsBacked (start w : World p db rl net h) (asks : Asks p db rl net h) (client : Client)
      : Type 0 where
    pub id : Bytes
    pub device : Device
    pub enrolled : get_device db id w.devices ≡ ok device
    pub attested : WasAttested p db rl net h start asks id
    pub let_in : WasLetIn p db rl net h asks client.device_id

  MayConnect-IsBacked :
      DatabaseLaws db
      → (ttl : ℕ) (start w : World p db rl net h) (asks : Asks p db rl net h)
      → IsEmpty p db rl net h ttl start
      → (served : Served p db rl net h start w asks) → AsciiIds p db rl net h asks
      → (cookies : List (Bytes × Bytes)) (now : ℕ) (claims : Claims) (client : Client)
      → IsHonest served cookies
      → claims.sid ≡ client.device_id
      → MayConnect p db h cookies now w.devices claims
      → IsBacked start w asks client
  MayConnect-IsBacked laws ttl start w asks empty served ascii cookies now claims client honest same
        may =
      let ticket = may.from_device.ticketed in
      let session = may.session in
      let origin_of : (token : Bytes)
          → GaveOut p db rl net h served token
          → HasOrigin p db rl net h start asks token =
        λ token given.
          GaveOut-HasOrigin p db rl net h laws ttl start empty w asks served token ascii given in
      record {
        id = may.id;
        device = may.from_device.device;
        enrolled = may.from_device.enrolled;
        attested = subst (WasAttested p db rl net h start asks) ticket.subject (
            ticket-WasAttested start asks ticket.token now ticket.claims ticket.genuine
              ticket.version (origin_of ticket.token (honest _ ticket.token ticket.sent)));
        let_in = subst (WasLetIn p db rl net h asks) same (
            session-WasLetIn start asks session.token now claims session.genuine session.version
              (origin_of session.token (honest _ session.token session.sent)));
      }

  -- On a server that started with no device and no challenge, whatever requests have come in, with
  -- ASCII identifiers for the logins, a request whose cookies hold only tokens that answers of the
  -- server have set becomes a WebSocket client only where the following stands behind it. Its device
  -- is enrolled, and an earlier request attested this device: it was enrolled with the bootstrap
  -- token and had signed a challenge of its own. The client bears the identifier that an earlier
  -- login was given, which came from an enrolled device with its ticket and with the shared secret.
  pub connected-IsBacked :
      DatabaseLaws db
      → (ttl : ℕ) (start w : World p db rl net h) (asks : Asks p db rl net h)
      → IsEmpty p db rl net h ttl start
      → (served : Served p db rl net h start w asks) → AsciiIds p db rl net h asks
      → (trusted : List net.Network) (r : Request (Unit {0})) (handshake : Bool) (pointer now : ℕ)
        (conns : Option ConnLimiter) (client : Client)
      → (handle_web_socket p db rl net h trusted r handshake pointer now w.devices conns).0
        ≡ connected client
      → IsHonest served r.cookies
      → IsBacked start w asks client
  unfolding new_client
  connected-IsBacked laws ttl start w asks empty served ascii trusted r handshake pointer now conns
        client e honest =
      elim (handle_web_socket-MayConnect p db rl net h trusted r handshake pointer now w.devices
        conns) [
          | inl (response, other, _, _, _) ↦ cc
          | inr (claims, may, inl (_, other, _)) ↦ cc
          | inr (claims, may, inr (inl (_, _, other, _))) ↦ cc
          | inr (claims, may, inr (inr (_, _, made, _))) ↦
              let ip : Bytes = get_client_ip net trusted r.origin in
              let same : new_client pointer claims.sid ip h.max_ws_msg_bytes ≡ client = cc in
              MayConnect-IsBacked laws ttl start w asks empty served ascii r.cookies now claims
                client honest (ap (λ (c : Client). c.device_id) same) may
        ]
