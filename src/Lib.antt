-- ===== src/Lib.antt =====
-- FileFlow: the Go server that passes text between enrolled devices, as a model with proofs.
--
-- The server (cmd/server/main.go) authenticates a device by a signed challenge, a user by a shared
-- secret, and then relays the events of one WebSocket client to another through a hub. Nothing of
-- what it relays is stored. The files here follow its packages:
--
-- - Limit.antt (internal/limit/limiter.go): the counters of open connections and the buckets of
--   login requests.
-- - Realtime/Events.antt (internal/realtime/events.go): events and the readers of their fields.
-- - Realtime/Hub.antt (internal/realtime/hub.go): `Hub.Run` is split into its cases `on_register`,
--   `on_unregister` and `on_stop`; `Broadcast` and `SendToPeer` are loops over the set of clients,
--   whose order stands for the order of Go's `range`. Hub/Safety.antt has a step relation in which
--   all goroutines may interleave and the order may change.
-- - Realtime/Client.antt (internal/realtime/client.go): the handlers of each event, `sendFail` as
--   `report_failure`, in Client/Pumps.antt the loop of `ReadPump`, and in Client/Write.antt
--   `WritePump`, of which each turn is given the case of `select` and the errors that the library reports.
--   Client/Spec.antt is the protocol as a specification: it keeps of a client only the bytes that
--   each message under way has brought and the number of these messages.
-- - Realtime/System.antt (internal/realtime, with the end of `handleWebSocket` of
--   internal/handler/api.go): the hub, the limiter and all connections as one transition system. A
--   connection is admitted, registered, read, hung up and unregistered; its write loop takes one
--   action on its channel at a time, so senders may come between any two. System/Pair.antt,
--   Flood.antt and Crash.antt build one run of it.
-- - Auth: Auth/Token.antt, Challenge.antt, Session.antt, Secret.antt and Jwk.antt are the files of
--   that name of internal/auth, with validate.go and signature.go in Jwk.antt.
-- - Store.antt (internal/store): devices and configuration values, over a database, and in
--   Store/Open.antt how the database is opened.
-- - Handler: Handler/Proxy.antt is the address of a client and Handler/Middleware.antt the limiter
--   of all requests, the log of requests and the wrappers that set headers (both
--   internal/handler/middleware.go); Handler/Api.antt and its children Devices.antt and Users.antt
--   are the handlers of internal/handler/api.go, and Handler/Routes.antt says which path goes to
--   which. A handler's checks are a chain of results, whose error is the answer; what it changes
--   (the database, the challenges, the limiters) it takes and gives back. Handler/Service.antt is
--   the sequence of all requests that share these, with a ledger of what was enrolled, asked and
--   given out, up to the request for a WebSocket (Service/Behind.antt).
-- - Server.antt (cmd/server/main.go): the environment, the parts that the server starts with, and in
--   Server/Lifetime.antt how the program ends. Server/Whole.antt puts the start and the requests
--   that are served after it together.
-- - Scripts.antt (scripts/gen_hash.go and scripts/hash_secret.go): both programs that print a hash.
-- - Common.antt: what these share, over the native numbers.
--
-- Conventions. A Go string is the list of its bytes. A pointer to a client is a number. A map is an
-- association list, and its theorems hold for every order of its entries. An operation under a
-- mutex is one step on the state that it guards. A panic, and an early end of a chain, is `none`.
-- Time is a number of nanoseconds, an argument of what reads the clock. Loops are recursions on
-- lists, so nothing here runs out of fuel; `write_pump` is given the list of its turns, and ends
-- by itself once its channel is closed.
--
-- Parameters. Code that is not in the repository is an argument: the token buckets of
-- golang.org/x/time/rate (`RateLimit`), JSON of events (`Codec`, `CodecLaws`), cryptography, base64
-- and the JSON of tokens and keys (`Platform`, `PlatformLaws`), SQLite (`Database`, `DatabaseLaws`,
-- `Driver`, `DriverLaws`) and the package net (`Net`). Random bytes and new identifiers are arguments too. Auth/Sample.antt,
-- Store/Sample.antt and Handler/Sample.antt are instances on which everything runs.
--
-- Not modelled: the WebSocket library with its deadlines, the log apart from that of requests, the
-- goroutines that only forward to the hub's channels or call a cleaning each minute, the decoding of
-- request bodies (a handler is given the decoded body, or none), the file server, and the HTTP
-- server itself: what its listener, the signals and its shutdown do are arguments of `run`.
-- Realtime/System.antt has no clock: a read loop may end at any time. How the environment's numbers
-- are read is a parameter (`Readers`). Durations are taken not to be negative, and a stored hash to
-- ask for at least one round and one thread, since Argon2 stops the program otherwise.
pub mod Auth
pub mod Common
pub mod Handler
pub mod Limit
pub mod Realtime
pub mod Scripts
pub mod Server
pub mod Store
