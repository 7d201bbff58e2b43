-- ===== src/Handler/Routes.antt =====
-- internal/handler/api.go, `Routes`: which handler a path goes to. Every pattern but "/" is one
-- path; "/" takes what no other pattern does.
use fileflow.Common.{Bytes, List, [], codes, get_or, lookup, ◌∷◌, bytes_key}

pub data Endpoint : Type 0 where
  healthz device_challenge device_attest login session presence admin_devices : Endpoint
  web_socket static_files : Endpoint

abbrev pub routes : List (Bytes × Endpoint)
routes =
    (codes "/healthz", healthz)
    ∷ (codes "/api/device/challenge", device_challenge)
    ∷ (codes "/api/device/attest", device_attest)
    ∷ (codes "/api/login", login)
    ∷ (codes "/api/session", session)
    ∷ (codes "/api/presence", presence)
    ∷ (codes "/api/admin/devices", admin_devices)
    ∷ (codes "/ws", web_socket)
    ∷ []

unfoldable pub route : Bytes → Endpoint
route path = get_or (lookup path routes) static_files
