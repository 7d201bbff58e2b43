-- ===== src/Handler/Api/Evidence.antt =====
-- internal/handler/api.go: what the checks of a device's ticket find out.
use fileflow.Common.{
  Bytes, List, [], bytes_beq, bytes_beq_iff, lookup, not, pos, refl, some, true, ℕ, ◌∙◌, ◌≡◌,
  bytes_key,
}
use fileflow.Auth.Token.{verify_with_version, version_device_ticket}
use fileflow.Auth.Token.Laws.{IsGenuine, verify_with_version-IsGenuine, verify_with_version-genuine}
use fileflow.Handler.Api.Visits.{login_device-enrolled}
use fileflow.Handler.Api.Users.{LoginBody, login_device}
use fileflow.Common.Result.{>>=-eq-ok, ok, require, require-eq-ok, some_or, some_or-eq-ok}
use fileflow.Auth.Platform.{Claims, Platform}
use fileflow.Handler.Api.{
  Handler, device_ticket_name, load_device, map_err, map_err-eq-ok, verify_device_ticket,
}
use fileflow.Store.{Database, Device, get_device}
use fileflow.Auth.Jwk.{validate_device_id_format}

module _ (p : Platform) (h : Handler) where
  -- The cookies hold a genuine device ticket for a well-formed id.
  pub record IsTicketed (cookies : List (Bytes × Bytes)) (now : ℕ) (id : Bytes) : Type 0 where
    pub token : Bytes
    pub sent : lookup device_ticket_name cookies ≡ some token
    pub claims : Claims
    pub genuine : IsGenuine p h.token_secret token now claims
    pub version : claims.ver ≡ pos version_device_ticket
    pub subject : claims.sid ≡ id
    pub well_formed : validate_device_id_format id ≡ true

  pub verify_device_ticket-IsTicketed :
      (cookies : List (Bytes × Bytes)) (now : ℕ) (id : Bytes)
      → verify_device_ticket p h cookies now ≡ ok id
      → IsTicketed cookies now id
  unfolding verify_device_ticket
  verify_device_ticket-IsTicketed cookies now id e =
      let (token, e₁, r₁) = >>=-eq-ok (some_or (lookup device_ticket_name cookies) _) _ e in
      let (c, e₂, r₂) =
        >>=-eq-ok (map_err _ (verify_with_version p h.token_secret token version_device_ticket now))
          _ r₁ in
      let (u₃, e₃, r₃) = >>=-eq-ok (require (validate_device_id_format c.sid) _) _ r₂ in
      let accepted = map_err-eq-ok _ (verify_with_version p h.token_secret token 2 now) e₂ in
      let (genuine, version) =
        verify_with_version-IsGenuine p h.token_secret token version_device_ticket now c accepted in
      let same : c.sid ≡ id = cc in
      record {
        token = token;
        sent = some_or-eq-ok _ _ e₁;
        claims = c;
        genuine = genuine;
        version = version;
        subject = same;
        well_formed = rw (← same) (require-eq-ok _ _ e₃);
      }

module _ (p : Platform) (db : Database) (h : Handler) where
  -- The request comes from an enrolled device with its own ticket.
  pub record IsFromDevice (cookies : List (Bytes × Bytes)) (now : ℕ) (s : db.State) (id : Bytes)
      : Type 0 where
    pub ticketed : IsTicketed p h cookies now id
    pub device : Device
    pub enrolled : get_device db id s ≡ ok device

  pub login_device-IsFromDevice :
      (cookies : List (Bytes × Bytes)) (body : LoginBody) (now : ℕ) (s : db.State) (id : Bytes)
      → login_device p db h cookies body now s ≡ ok id
      → IsFromDevice cookies now s id × (body.device_id ≡ id)
  unfolding login_device load_device
  login_device-IsFromDevice cookies body now s id e =
      let (i, e₁, r₁) = >>=-eq-ok (map_err _ (verify_device_ticket p h cookies now)) _ e in
      let (u₂, e₂, r₂) = >>=-eq-ok (require (not (bytes_beq body.device_id [])) _) _ r₁ in
      let (u₃, e₃, r₃) = >>=-eq-ok (require (validate_device_id_format body.device_id) _) _ r₂ in
      let (u₄, e₄, r₄) = >>=-eq-ok (require (bytes_beq body.device_id i) _) _ r₃ in
      let (d, e₅, r₅) = >>=-eq-ok (map_err _ (get_device db i s)) _ r₄ in
      let same : i ≡ id = cc in
      let ticket = map_err-eq-ok _ (verify_device_ticket p h cookies now) e₁ in
      let found = map_err-eq-ok _ (get_device db i s) e₅ in
      (
        record {
          ticketed = verify_device_ticket-IsTicketed p h cookies now id (rw (← same) ticket);
          device = d;
          enrolled = rw (← same) found;
        },
        (bytes_beq_iff _ _).0 (require-eq-ok _ _ e₄) ∙ same,
      )

module _ (p : Platform) (h : Handler) where
  pub verify_device_ticket-ticketed :
      (cookies : List (Bytes × Bytes)) (now : ℕ) (id : Bytes)
      → IsTicketed p h cookies now id
      → verify_device_ticket p h cookies now ≡ ok id
  unfolding verify_device_ticket map_err
  verify_device_ticket-ticketed cookies now id t =
      let accepted =
        verify_with_version-genuine p h.token_secret t.token version_device_ticket now t.claims
          t.genuine t.version in
      rw (verify_device_ticket, t.sent, accepted, map_err, t.subject, t.well_formed)

module _ (p : Platform) (db : Database) (h : Handler) where
  -- The converse.
  pub login_device-from_device :
      (cookies : List (Bytes × Bytes)) (body : LoginBody) (now : ℕ) (s : db.State)
      → IsFromDevice p db h cookies now s body.device_id
      → login_device p db h cookies body now s ≡ ok body.device_id
  login_device-from_device cookies body now s f =
      login_device-enrolled p db h body.device_id f.device f.ticketed.well_formed cookies body now s
        (verify_device_ticket-ticketed p h cookies now body.device_id f.ticketed) refl f.enrolled
