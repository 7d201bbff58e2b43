-- ===== src/Handler/Api/Sockets.antt =====
-- internal/handler/api.go: who gets a WebSocket.
use fileflow.Common.{
  Bool, Bool-cases, Bytes, List, Option, ap, arith, false, inl, inr, lookup, none, pos, refl, some,
  sym, true, ℕ, ◌&&◌, ◌∙◌, ◌≡◌, ◌⊎◌, bytes_key,
}
use fileflow.Common.Result.{
  >>=-ErrIs, >>=-eq-ok, ErrIs, Result-cases, err-ne-ok, ok, some_or, some_or-eq-ok,
}
use fileflow.Limit.{ConnLimiter, RateLimit, increment}
use fileflow.Realtime.Client.{Client, new_client}
use fileflow.Auth.Platform.{Claims, Platform}
use fileflow.Auth.Token.{verify_with_version, version_session}
use fileflow.Auth.Token.Laws.{IsGenuine, verify_with_version-IsGenuine, verify_with_version-genuine}
use fileflow.Store.{Database, get_device}
use fileflow.Handler.Http.{IsRefusal, Request, Response, write_error, write_json}
use fileflow.Handler.Proxy.{Net, get_client_ip}
use fileflow.Handler.Api.{
  Handler, check_origin, load_device, lookup_error-IsRefusal, map_err, map_err-ErrIs, map_err-eq-ok,
  session_name, ticket_error-IsRefusal, verify_device_ticket,
}
use fileflow.Handler.Api.Users.{
  WsOutcome, answered, closed, connected, handle_web_socket, session_claims, socket_claims,
  take_slot, unauthorized, upgrade_failed,
}
use fileflow.Handler.Api.Evidence.{
  IsFromDevice, verify_device_ticket-IsTicketed, verify_device_ticket-ticketed,
}

module _ (p : Platform) (db : Database) (h : Handler) where
  -- The cookies hold a genuine session.
  pub record HasSession (cookies : List (Bytes × Bytes)) (now : ℕ) (claims : Claims) : Type 0 where
    pub token : Bytes
    pub sent : lookup session_name cookies ≡ some token
    pub genuine : IsGenuine p h.token_secret token now claims
    pub version : claims.ver ≡ pos version_session

  session_claims-HasSession :
      (cookies : List (Bytes × Bytes)) (now : ℕ) (claims : Claims)
      → session_claims p db h cookies now ≡ ok claims
      → HasSession cookies now claims
  unfolding session_claims
  session_claims-HasSession cookies now claims e =
      let (token, e₁, r₁) = >>=-eq-ok (some_or (lookup session_name cookies) _) _ e in
      let accepted =
        map_err-eq-ok _ (verify_with_version p h.token_secret token version_session now) r₁ in
      let (genuine, version) =
        verify_with_version-IsGenuine p h.token_secret token version_session now claims accepted in
      record { token = token; sent = some_or-eq-ok _ _ e₁; genuine = genuine; version = version }

  -- Both tokens, and an enrolled device.
  pub record MayConnect (cookies : List (Bytes × Bytes)) (now : ℕ) (s : db.State) (claims : Claims)
      : Type 0 where
    pub id : Bytes
    pub from_device : IsFromDevice p db h cookies now s id
    pub session : HasSession cookies now claims

  socket_claims-MayConnect :
      (cookies : List (Bytes × Bytes)) (now : ℕ) (s : db.State) (claims : Claims)
      → socket_claims p db h cookies now s ≡ ok claims
      → MayConnect cookies now s claims
  unfolding socket_claims load_device
  socket_claims-MayConnect cookies now s claims e =
      let (id, e₁, r₁) = >>=-eq-ok (map_err _ (verify_device_ticket p h cookies now)) _ e in
      let (d, e₂, r₂) = >>=-eq-ok (map_err _ (get_device db id s)) _ r₁ in
      record {
        id = id;
        from_device = record {
          ticketed =
              verify_device_ticket-IsTicketed p h cookies now id
                (map_err-eq-ok _ (verify_device_ticket p h cookies now) e₁);
          device = d;
          enrolled = map_err-eq-ok _ (get_device db id s) e₂;
        };
        session =
            session_claims-HasSession cookies now claims
              (map_err-eq-ok _ (session_claims p db h cookies now) r₂);
      }

  session_claims-session :
      (cookies : List (Bytes × Bytes)) (now : ℕ) (claims : Claims)
      → HasSession cookies now claims
      → session_claims p db h cookies now ≡ ok claims
  unfolding session_claims map_err
  session_claims-session cookies now claims k =
      let accepted =
        verify_with_version-genuine p h.token_secret k.token version_session now claims k.genuine
          k.version in
      rw (session_claims, k.sent, accepted, map_err)

  -- The converse.
  socket_claims-allowed :
      (cookies : List (Bytes × Bytes)) (now : ℕ) (s : db.State) (claims : Claims)
      → MayConnect cookies now s claims
      → socket_claims p db h cookies now s ≡ ok claims
  unfolding socket_claims load_device map_err
  socket_claims-allowed cookies now s claims k =
      let ticket = verify_device_ticket-ticketed p h cookies now k.id k.from_device.ticketed in
      let session = session_claims-session cookies now claims k.session in
      rw (socket_claims, ticket, map_err, load_device, k.from_device.enrolled, session)

  socket_claims-ErrIs :
      (cookies : List (Bytes × Bytes)) (now : ℕ) (s : db.State)
      → ErrIs IsRefusal (socket_claims p db h cookies now s)
  unfolding socket_claims load_device unauthorized write_error write_json
  socket_claims-ErrIs cookies now s =
      >>=-ErrIs IsRefusal (map_err _ (verify_device_ticket p h cookies now)) _
        (map_err-ErrIs IsRefusal _ (verify_device_ticket p h cookies now)
          (ticket_error-IsRefusal p h))
        (λ id.
          >>=-ErrIs IsRefusal (map_err _ (get_device db id s)) _
            (map_err-ErrIs IsRefusal _ (get_device db id s) (lookup_error-IsRefusal _))
            (λ d.
              map_err-ErrIs IsRefusal _ (session_claims p db h cookies now)
                (λ m. (_, _, refl, refl))))

module _ (p : Platform) (db : Database) (rl : RateLimit) (net : Net) (h : Handler) where
  increment-refused :
      (l : ConnLimiter) (ip : Bytes) → (increment l ip).0 ≡ false → (increment l ip).1 ≡ l
  unfolding increment
  increment-refused l ip e = ground arith

  take_slot-refused :
      (conns : Option ConnLimiter) (ip : Bytes)
      → (take_slot p db rl net h conns ip).0 ≡ false
      → (take_slot p db rl net h conns ip).1 ≡ conns
  unfolding take_slot
  take_slot-refused none ip e = refl
  take_slot-refused (some l) ip e = ap some (increment-refused l ip e)

  abbrev pub SocketOutcome :
      List net.Network
      → Request (Unit {0})
      → Bool
      → ℕ
      → ℕ
      → db.State
      → Option ConnLimiter
      → WsOutcome
      → Option ConnLimiter
      → Type 0
  SocketOutcome trusted r handshake pointer now s conns outcome conns' =
      let ip = get_client_ip net trusted r.origin in
      let upgrades = handshake && check_origin h r.origin_header in
      ((response : Response) × (outcome ≡ answered response)
        × IsRefusal response
        × (conns' ≡ conns)
        × ((claims : Claims) → MayConnect p db h r.cookies now s claims → ⊥))
      ⊎ ((claims : Claims) × MayConnect p db h r.cookies now s claims
          × (((upgrades ≡ false) × (outcome ≡ upgrade_failed) × (conns' ≡ conns))
              ⊎ ((upgrades ≡ true)
                  × ((take_slot p db rl net h conns ip).0 ≡ false)
                  × (outcome ≡ closed)
                  × (conns' ≡ conns))
              ⊎ ((upgrades ≡ true)
                  × ((take_slot p db rl net h conns ip).0 ≡ true)
                  × (outcome ≡ connected (new_client pointer claims.sid ip h.max_ws_msg_bytes))
                  × (conns' ≡ (take_slot p db rl net h conns ip).1))))

  -- A request for a WebSocket is refused exactly where it does not carry a genuine device ticket of an
  -- enrolled device and a genuine session. If it does, it fails unless its origin is allowed and the
  -- handshake succeeds, and it is closed unless the limiter has a slot for its address; otherwise it
  -- becomes a client that is named after the session's subject. Where it becomes a client, the one
  -- slot that it needs is taken, and where it does not, the counts are as they were.
  pub handle_web_socket-MayConnect :
      (trusted : List net.Network) (r : Request (Unit {0})) (handshake : Bool) (pointer now : ℕ)
      (s : db.State) (conns : Option ConnLimiter)
      → let (outcome, conns') =
          handle_web_socket p db rl net h trusted r handshake pointer now s conns in
        SocketOutcome trusted r handshake pointer now s conns outcome conns'
  unfolding handle_web_socket
  handle_web_socket-MayConnect trusted r handshake pointer now s conns =
      let run = handle_web_socket p db rl net h trusted r handshake pointer now s conns in
      let ip : Bytes = get_client_ip net trusted r.origin in
      elim (Result-cases (socket_claims p db h r.cookies now s)) [
        | inr (x, e) ↦
            let q : run ≡ (answered x, conns) = rw (handle_web_socket, e) in
            rw q (
              inl (
                x,
                refl,
                socket_claims-ErrIs p db h r.cookies now s x e,
                refl,
                λ claims k.
                    err-ne-ok (sym e ∙ socket_claims-allowed p db h r.cookies now s claims k),
              ))
        | inl (claims, e) ↦
            let allowed = socket_claims-MayConnect p db h r.cookies now s claims e in
            elim (Bool-cases (handshake && check_origin h r.origin_header)) [
              | inr refused ↦
                  let q : run ≡ (upgrade_failed, conns) = rw (handle_web_socket, e, refused) in
                  rw q (inr (claims, allowed, inl (refused, refl, refl)))
              | inl upgraded ↦ elim (Bool-cases (take_slot p db rl net h conns ip).0) [
                | inr full ↦
                    let same = take_slot-refused conns ip full in
                    let q : run ≡ (closed, conns) =
                      rw (handle_web_socket, e, upgraded, full, same) in
                    rw q (inr (claims, allowed, inr (inl (upgraded, full, refl, refl))))
                | inl free ↦
                    let c : Client = new_client pointer claims.sid ip h.max_ws_msg_bytes in
                    let q : run ≡ (connected c, (take_slot p db rl net h conns ip).1) =
                      rw (handle_web_socket, e, upgraded, free) in
                    rw q (inr (claims, allowed, inr (inr (upgraded, free, refl, refl))))
              ]
            ]
      ]
