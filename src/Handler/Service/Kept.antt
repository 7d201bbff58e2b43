-- ===== src/Handler/Service/Kept.antt =====
-- internal/handler/api.go: what no request changes.
use fileflow.Common.{Bool-cases, Bytes, List, bytes_beq_iff, inl, inr, ℕ, ◌==◌, ◌≡◌, bytes_key}
use fileflow.Common.Result.{Result-cases, ok}
use fileflow.Limit.{RateLimit}
use fileflow.Auth.Platform.{Platform}
use fileflow.Handler.Proxy.{Net}
use fileflow.Handler.Http.{Request}
use fileflow.Handler.Api.{Handler}
use fileflow.Handler.Api.Devices.{EnrollBody, handle_admin_devices}
use fileflow.Handler.Api.Enrollment.{handle_admin_devices-MayEnroll}
use fileflow.Store.{Database, Device, add_device, get_device}
use fileflow.Store.Rows.{DatabaseLaws, add_device_twice, get_device-add_device}
use fileflow.Handler.Service.{
  Ask, Served, World, asked, attests, enrolls, logs_in, opened, seeks_challenge, serve, sweeps,
}

module _ (p : Platform) (db : Database) (rl : RateLimit) (net : Net) (h : Handler) where
  enrolls-Keeps :
      DatabaseLaws db
      → (r : Request EnrollBody) (now : ℕ) (s : db.State) (id : Bytes) (d : Device)
      → get_device db id s ≡ ok d
      → get_device db id (handle_admin_devices p db h r now s).1 ≡ ok d
  enrolls-Keeps laws r now s id d found = elim (handle_admin_devices-MayEnroll p db h r now s) [
    | inl (refused, same, _) ↦ rw same found
    | inr (new, may, same, _) ↦
        let after = get_device-add_device db laws new id s in
        elim (Result-cases (add_device db new s).0) [
          | inr (x, f) ↦ rw (same, after, f) found
          | inl (u, f) ↦ elim (Bool-cases (new.device_id == id)) [
            | inr other ↦ rw (same, after, f, other) found
            | inl own ↦
                let here : get_device db new.device_id s ≡ ok d =
                  rw ((bytes_beq_iff new.device_id id).0 own) found in
                let (refused, _) = add_device_twice db laws new d id s here in cc
          ]
        ]
  ]

  serve-Keeps :
      DatabaseLaws db
      → (w : World p db rl net h) (a : Ask p db rl net h) (id : Bytes) (d : Device)
      → get_device db id w.devices ≡ ok d
      → get_device db id (serve p db rl net h w a).1.devices ≡ ok d
  unfolding serve
  serve-Keeps laws w (enrolls r now) id d found = enrolls-Keeps laws r now w.devices id d found
  serve-Keeps laws w (seeks_challenge r random uuid now) id d found = found
  serve-Keeps laws w (attests r now) id d found = found
  serve-Keeps laws w (logs_in trusted r uuid now) id d found = found
  serve-Keeps laws w (sweeps now) id d found = found

  -- Once a device is enrolled, it stays enrolled with the same key and label, whatever requests come
  -- in afterwards: none removes it, and none, with the bootstrap token or without, replaces its key.
  pub get_device-serve :
      DatabaseLaws db
      → (w later : World p db rl net h) (asks : List (Ask p db rl net h)) (id : Bytes) (d : Device)
      → get_device db id w.devices ≡ ok d
      → Served p db rl net h w later asks
      → get_device db id later.devices ≡ ok d
  get_device-serve laws w later asks id d found opened = found
  get_device-serve laws w later asks id d found (asked {w = v} {asks = older} a served) =
      serve-Keeps laws v a id d (get_device-serve laws w v older id d found served)
