-- ===== src/Handler/Service.antt =====
-- internal/handler/api.go: the requests to enroll, challenge and attest a device and to log in, one
-- after another on the state that they share. Each handler is one step; the challenge store also
-- cleans itself each minute.
pub mod Ledger
pub mod Earned
pub mod Kept
pub mod Origins
pub mod Given
pub mod Behind
pub mod Entitled
mod Tests
use fileflow.Common.{Bytes, List, Option, [], none, some, ℕ, ◌∷◌, bytes_key}
use fileflow.Limit.{IpLimiter, RateLimit}
use fileflow.Auth.Platform.{Platform}
use fileflow.Auth.Challenge.{ChallengeStore, cleanup}
use fileflow.Handler.Proxy.{Net}
use fileflow.Handler.Http.{Request, Response}
use fileflow.Handler.Api.{Handler}
use fileflow.Handler.Api.Devices.{
  AttestBody, ChallengeBody, EnrollBody, handle_admin_devices, handle_device_attest,
  handle_device_challenge,
}
use fileflow.Handler.Api.Users.{LoginBody, handle_login}
use fileflow.Store.{Database}

module _ (p : Platform) (db : Database) (rl : RateLimit) (net : Net) (h : Handler) where
  -- What the handlers keep: the database, the challenges, and the limiter of logins.
  pub record World : Type 0 where
    pub devices : db.State
    pub challenges : ChallengeStore
    pub logins : IpLimiter rl

  pub data Ask : Type 0 where
    enrolls : Request EnrollBody → (now : ℕ) → Ask
    seeks_challenge :
        Request ChallengeBody → (random : Option Bytes) → (uuid : Bytes) → (now : ℕ) → Ask
    attests : Request AttestBody → (now : ℕ) → Ask
    logs_in : List net.Network → Request LoginBody → (uuid : Bytes) → (now : ℕ) → Ask
    sweeps : (now : ℕ) → Ask

  unfoldable pub serve : World → Ask → Option Response × World
  serve w (enrolls r now) =
      let (response, s) = handle_admin_devices p db h r now w.devices in
      (some response, record w { devices = s })
  serve w (seeks_challenge r random uuid now) =
      let (response, cs) =
        handle_device_challenge p db h r random uuid now w.devices w.challenges in
      (some response, record w { challenges = cs })
  serve w (attests r now) =
      let (response, cs) = handle_device_attest p db h r now w.devices w.challenges in
      (some response, record w { challenges = cs })
  serve w (logs_in trusted r uuid now) =
      let (response, l) = handle_login p db rl net h trusted r uuid now w.devices w.logins in
      (some response, record w { logins = l })
  serve w (sweeps now) = (none, record w { challenges = cleanup w.challenges now })

  -- The worlds that the server comes to, with what was asked of it, the last first.
  pub data Served (start : World) : World → List Ask → Type 0 where
    opened : Served start start []
    asked :
        {w : World} {asks : List Ask} (a : Ask)
        → Served start w asks
        → Served start (serve w a).1 (a ∷ asks)
