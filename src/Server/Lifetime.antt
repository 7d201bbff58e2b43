-- ===== src/Server/Lifetime.antt =====
-- cmd/server/main.go, `main` and `run`: how the program ends, and what it has closed by then. What
-- the listener, the signals and `Shutdown` do is an argument. `log.Fatal` ends the program at once,
-- so no deferred call runs then.
use fileflow.Common.{
  Bool, Bool-cases, Bytes, List, Option, [], arith, bytes_beq, codes, if◌then◌else◌, inl, inr, none,
  refl, some, ℕ, ◌&&◌, ◌∙◌, ◌∷◌, ◌≡◌, bytes_key,
}
use fileflow.Common.Result.{Result, Result-cases, err, ok}
use fileflow.Store.{Database}
use fileflow.Store.Open.{Driver, OpenError, new_store}
use fileflow.Server.{
  Env, Readers, Server, StartError, app_domain_required, get_env, load_config, start,
}
use fileflow.Limit.{RateLimit}
use fileflow.Handler.Proxy.{Net}

-- What ends the `select` of `run`.
pub data Ending : Type 0 where
  listen_failed : Bytes → Ending
  signalled : Ending

-- The deferred calls, in the order in which they run.
pub data Cleanup : Type 0 where
  stops_hub stops_challenges closes_database : Cleanup

pub data RunError : Type 0 where
  no_database : OpenError → RunError
  no_listener : Bytes → RunError
  no_shutdown : Bytes → RunError

-- `run` returns, or the program is ended by `log.Fatal` in it or before it.
pub data Exit : Type 0 where
  returned : Option RunError → List Cleanup → Exit
  killed : StartError → Exit

abbrev pub end_of : Ending → Option Bytes → Option RunError
end_of (listen_failed e) shutdown_error = some (no_listener e)
end_of signalled none = none
end_of signalled (some e) = some (no_shutdown e)

module _ (rl : RateLimit) (net : Net) (db : Database) (readers : Readers rl)
    (driver : Driver db) where
  abbrev domain_missing : Env → Bool
  domain_missing env =
      bytes_beq (load_config rl net db readers env).app_domain []
      && bytes_beq (get_env env (codes "ENV") []) (codes "prod")

  abbrev pub database_of : Env → Result OpenError db.State
  database_of env = new_store db driver (load_config rl net db readers env).sqlite_path

  -- The database is opened first; a start that fails after that leaves it open.
  unfoldable pub run : Env → Ending → Option Bytes → Exit
  run env ending shutdown_error =
      if domain_missing env then killed app_domain_required else elim (database_of env) [
        | err e ↦ returned (some (no_database e)) []
        | ok s ↦ elim (start rl net db readers env s) [
          | err e ↦ killed e
          | ok server ↦
              returned (end_of ending shutdown_error)
                (stops_hub ∷ stops_challenges ∷ closes_database ∷ [])
        ]
      ]

  -- `main`: the status that the program ends with.
  unfoldable pub exit_status : Exit → ℕ
  exit_status (returned none cleanups) = 0
  exit_status (returned (some e) cleanups) = 1
  exit_status (killed e) = 1

  end_of_zero :
      (ending : Ending) (shutdown_error : Option Bytes) (cleanups : List Cleanup)
      → exit_status (returned (end_of ending shutdown_error) cleanups) ≡ 0
      → (ending ≡ signalled) × (shutdown_error ≡ none)
  unfolding exit_status
  end_of_zero (listen_failed x) shutdown_error cleanups e = ground (arith, e)
  end_of_zero signalled none cleanups e = (refl, refl)
  end_of_zero signalled (some x) cleanups e = ground (arith, e)

  killed_one : (x : StartError) → exit_status (killed x) ≡ 0 → ⊥
  unfolding exit_status
  killed_one x e = ground (arith, e)

  no_database_one : (x : OpenError) → exit_status (returned (some (no_database x)) []) ≡ 0 → ⊥
  unfolding exit_status
  no_database_one x e = ground (arith, e)

  abbrev pub EndsWell : Env → Ending → Option Bytes → Type 0
  EndsWell env ending shutdown_error =
      (s : db.State) × (server : Server rl net db readers) × (database_of env ≡ ok s)
      × (start rl net db readers env s ≡ ok server)
      × (ending ≡ signalled)
      × (shutdown_error ≡ none)
      × (run env ending shutdown_error
          ≡ returned none (stops_hub ∷ stops_challenges ∷ closes_database ∷ []))

  -- If the program ends with status 0, its database was opened, it started, a signal came, and the
  -- shutdown went well; and by then the hub and the cleaning of the challenges were stopped and the
  -- database was closed, in this order.
  pub exit_status_zero :
      (env : Env) (ending : Ending) (shutdown_error : Option Bytes)
      → exit_status (run env ending shutdown_error) ≡ 0
      → EndsWell env ending shutdown_error
  unfolding run
  exit_status_zero env ending shutdown_error e = elim (Bool-cases (domain_missing env)) [
    | inl missing ↦ absurd (killed_one _ (rw (run, missing) at e))
    | inr given ↦ elim (Result-cases (database_of env)) [
      | inr (x, f) ↦ absurd (no_database_one x (rw (run, given, f) at e))
      | inl (s, f) ↦ elim (Result-cases (start rl net db readers env s)) [
        | inr (x, g) ↦ absurd (killed_one x (rw (run, given, f, g) at e))
        | inl (server, g) ↦
            let q : run env ending shutdown_error
                ≡ returned (end_of ending shutdown_error)
                    (stops_hub ∷ stops_challenges ∷ closes_database ∷ []) =
              rw (run, given, f, g) refl in
            let (came, well) = end_of_zero ending shutdown_error _ (rw q at e) in
            (s, server, f, g, came, well, q ∙ rw (came, well) refl)
      ]
    ]
  ]
