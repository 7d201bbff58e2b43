-- ===== src/Handler/Api.antt =====
-- internal/handler/api.go: what a handler is made with, and the checks that several handlers share.
-- A handler reads the clock once here, where the code may read it again a moment later.
pub mod Devices
pub mod Users
pub mod Tickets
pub mod Replay
pub mod Challenges
pub mod Evidence
pub mod Logins
pub mod Sockets
pub mod Visits
pub mod Admission
pub mod Enrollment
mod Tests
use fileflow.Common.{
  Bool, Bytes, List, Option, String, [], bytes_beq, codes, get_or, if◌then◌else◌, int_beq, lookup,
  nat_beq, pos, refl, subst, ℕ, ℤ, ◌*◌, ◌++◌, ◌||◌, ◌≡◌, bytes_key,
}
use fileflow.Common.Result.{ErrIs, Result, err, ok, require, some_or, ◌>>=◌, ◌>>◌}
use fileflow.Realtime.Events.{max_message_size}
use fileflow.Auth.Platform.{Platform}
use fileflow.Auth.Jwk.{validate_device_id_format}
use fileflow.Auth.Token.{verify_with_version, version_device_ticket}
use fileflow.Auth.Challenge.{ChallengeStore, new_challenge_store}
use fileflow.Store.{
  Database, Device, StoreError, config_not_found, device_exists, device_not_found, get_device,
  store_failed,
}
use fileflow.Handler.Http.{IsRefusal, Response, write_error, write_json}

pub record Config : Type 0 where
  pub token_secret : Bytes
  pub secret_hash : Bytes
  pub bootstrap_token : Bytes
  pub secure_cookies : Bool
  pub session_ttl : ℕ
  pub device_ticket_ttl : ℕ
  pub challenge_store : Option ChallengeStore
  pub max_ws_msg_bytes : ℤ
  pub allowed_origin : Bytes

-- The store and the limiters are arguments of the handlers that use them.
pub record Handler : Type 0 where
  pub token_secret : Bytes
  pub secret_hash : Bytes
  pub bootstrap_token : Bytes
  pub secure_cookies : Bool
  pub session_ttl : ℕ
  pub device_ticket_ttl : ℕ
  pub max_ws_msg_bytes : ℤ
  pub allowed_origin : Bytes

-- 15 minutes and 60 seconds
abbrev pub default_ticket_ttl : ℕ
default_ticket_ttl = 15 * 60 * 1_000_000_000

abbrev pub default_challenge_ttl : ℕ
default_challenge_ttl = 60 * 1_000_000_000

unfoldable pub new_handler : Config → Handler × ChallengeStore
new_handler cfg = (
  record {
    token_secret = cfg.token_secret;
    secret_hash = cfg.secret_hash;
    bootstrap_token = cfg.bootstrap_token;
    secure_cookies = cfg.secure_cookies;
    session_ttl = cfg.session_ttl;
    device_ticket_ttl =
        if nat_beq cfg.device_ticket_ttl 0 then default_ticket_ttl else cfg.device_ticket_ttl;
    max_ws_msg_bytes =
        if int_beq cfg.max_ws_msg_bytes (pos 0) then pos max_message_size else cfg.max_ws_msg_bytes;
    allowed_origin = cfg.allowed_origin;
  },
  get_or cfg.challenge_store (new_challenge_store default_challenge_ttl),
)

-- `upgrader.CheckOrigin`
unfoldable pub check_origin : Handler → Bytes → Bool
check_origin h origin =
    bytes_beq h.allowed_origin []
    || bytes_beq origin h.allowed_origin
    || bytes_beq origin (codes "https://" ++ h.allowed_origin)

-- The errors of `verifyDeviceTicket`, as far as its callers tell them apart.
pub data TicketError : Type 0 where
  missing_ticket invalid_ticket : TicketError

-- `if err != nil { return f(err) }`
unfoldable pub map_err {ℓ κ μ} :
    {E : Type ℓ} {F : Type κ} {A : Type μ} → (E → F) → Result E A → Result F A
map_err f (ok a) = ok a
map_err f (err e) = err (f e)

abbrev pub device_ticket_name : Bytes
device_ticket_name = codes "device_ticket"

abbrev pub session_name : Bytes
session_name = codes "ff_session"

module _ (p : Platform) (h : Handler) where
  unfoldable pub verify_device_ticket : List (Bytes × Bytes) → ℕ → Result TicketError Bytes
  unfolding map_err
  verify_device_ticket cookies now = do
    cookie ← some_or (lookup device_ticket_name cookies) missing_ticket
    claims ←
        map_err (λ _. invalid_ticket)
          (verify_with_version p h.token_secret cookie version_device_ticket now)
    require (validate_device_id_format claims.sid) invalid_ticket
    ok claims.sid

  -- What `handleLogin` and `handleWebSocket` answer to a request without a good ticket.
  unfoldable pub ticket_error : TicketError → Response
  unfolding write_error
  ticket_error missing_ticket = write_error 401 "MISSING_DEVICE_TICKET" "Device ticket required"
  ticket_error invalid_ticket = write_error 401 "INVALID_DEVICE_TICKET" "Invalid device ticket"

-- A lookup of a device that must be enrolled; the text is for a failure of the database.
unfoldable pub lookup_error : String → StoreError → Response
unfolding write_error
lookup_error message device_not_found = write_error 403 "DEVICE_NOT_ENROLLED" "Device not enrolled"
lookup_error message device_exists = write_error 500 "INTERNAL_ERROR" message
lookup_error message config_not_found = write_error 500 "INTERNAL_ERROR" message
lookup_error message store_failed = write_error 500 "INTERNAL_ERROR" message

module _ (db : Database) where
  unfoldable pub load_device : String → Bytes → db.State → Result Response Device
  unfolding map_err lookup_error
  load_device message id s = map_err (lookup_error message) (get_device db id s)

pub map_err-eq-ok {ℓ κ μ} :
    {E : Type ℓ} {F : Type κ} {A : Type μ} (f : E → F) (r : Result E A) {a : A}
    → map_err f r ≡ ok a
    → r ≡ ok a
unfolding map_err
map_err-eq-ok f (ok a) e = cc
map_err-eq-ok f (err x) e = cc

pub map_err-ErrIs {ℓ κ μ ν} :
    {E : Type ℓ} {F : Type κ} {A : Type μ} (P : F → Type ν) (f : E → F) (r : Result E A)
    → ((e : E) → P (f e))
    → ErrIs P (map_err f r)
unfolding map_err
map_err-ErrIs P f (ok a) h e q = cc
map_err-ErrIs P f (err x) h e q = let same : f x ≡ e = cc in subst P same (h x)

pub lookup_error-IsRefusal : (m : String) (e : StoreError) → IsRefusal (lookup_error m e)
unfolding lookup_error write_error write_json
lookup_error-IsRefusal m device_not_found = (_, _, refl, refl)
lookup_error-IsRefusal m device_exists = (_, _, refl, refl)
lookup_error-IsRefusal m config_not_found = (_, _, refl, refl)
lookup_error-IsRefusal m store_failed = (_, _, refl, refl)

pub ticket_error-IsRefusal :
    (p : Platform) (h : Handler) (e : TicketError) → IsRefusal (ticket_error p h e)
unfolding ticket_error write_error write_json
ticket_error-IsRefusal p h missing_ticket = (_, _, refl, refl)
ticket_error-IsRefusal p h invalid_ticket = (_, _, refl, refl)
