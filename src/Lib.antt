-- ===== src/Lib.antt =====
-- The backend of the remote-assistance application, which pairs a technician's desktop agent with an
-- end user's phone. A technician logs in, mints a connection token (a connect id and a PIN) and joins
-- the signaling room of the new session; the phone redeems the token and joins the same room; the
-- backend relays their signaling messages until the last of them leaves.
--
-- Which file models what:
-- - Signaling/Role, Signaling/Hub: Role and Hub of backend/internal/signaling/hub.go. A Go map of
--   peers by role is a RoleMap. Pointers to peers are ids into a store of peers, so a frame sent
--   through any reference changes the one peer. Hub.Join is register, then announce; Hub.Leave is
--   unregister, then depart: here a call runs from its start to its end with no other call between.
-- - Signaling/Channel: wsPeer, Send, closeSend and writePump of handlers.go. A panic of Go is an
--   outcome of its own.
-- - Signaling/Presence: the interface Presence of fanout.go with the laws that the hub relies on, and
--   LocalPresence of presence_local.go, which fills it.
-- - Signaling/RedisPresence, Signaling/RedisFanout: redis.go. The presence is a hash of signed counts
--   for each room, whose transactions may be lost; it fills the same interface. The fanout gives each
--   instance a list of waiting messages.
-- - Signaling/Handler: ServeWS, one message of the loop of readPump, and the parts of its tear-down.
-- - Signaling/Lifecycle: all connections of one process as an interleaving of the regions of these
--   calls between two locks, in whatever order a schedule names. What readPump and Hub.Join do with
--   a frame is a list of tasks: deliverLocal's lookup, under the hub's lock, and Send through the
--   pointer that it found, under the peer's, are two regions, and other connections may act between
--   them. The abstract view is the number of live connections of each role.
-- - Session/Table: the SQL statements on sessions, and the sweep of backend/cmd/server/main.go.
-- - Session/Service, Session/Mint: Redeem and Mint of backend/internal/session/service.go over a
--   world of Redis, the sessions table, random numbers and outages of Postgres. Session/Entry joins
--   them with the issuer and with ServeWS.
-- - Session/Handlers: backend/internal/session/handlers.go. Server/RoomEnded: the callback of main.go
--   that ends a session when its room is empty. Server/Startup: run, up to the router.
-- - Recordings: backend/internal/recordings, with the table of recordings (Table), the service, the
--   HTTP handlers and the presigner of uploads.
-- - Router: the routes and guards of backend/internal/httpapi/router.go; Router/Status: its writers and
--   those of backend/internal/metrics/metrics.go, with a handler that hijacks the connection.
-- - Store: Migrate of backend/internal/store/store.go. Config: backend/internal/config/config.go.
--   Crypto: backend/internal/crypto/password.go.
-- - Ratelimit: backend/internal/ratelimit/ratelimit.go. Auth: backend/internal/auth and the signaling
--   authorizer of main.go. Turn: backend/internal/turn/turn.go.
-- - Identity/Table, Identity/Service, Identity/Handlers: the users table and
--   backend/internal/identity.
-- - Platform: what the code calls and the repository does not hold: Redis, JWT and UUIDs, each a
--   record of operations with their documented laws. Base: shared names, tests, lists and maps.
-- - Examples: runs at concrete inputs, with an in-memory Redis and other concrete libraries.
--
-- Numbers are unbounded: times, counts and versions stay far below the 64 bits of the code; the one
-- product that can pass them, seconds of the configuration in nanoseconds, wraps around as an int64.
-- Loops are structural recursion: the five tries of Mint and the digits of a PIN are counted down, the
-- loops of readPump and writePump run over a list of events, those of Migrate and of the fanout over
-- the files and the messages, and a schedule is a list of actions, so no fuel can run out.
--
-- Not modelled: the passing of time inside a call, and the expiry of Redis keys but for that of a
-- presence; the reading and writing of JSON, the matching of patterns by http.ServeMux, Argon2, base64,
-- HMAC and the formats of fmt and time, which enter as parameters; latencies, logs but for their status,
-- and the gauge of rooms; the probes, the listener, the stop of the process, and the connections to
-- Postgres and Redis, which are I/O; the clients, which are other programs.
pub mod Base
pub mod Signaling
pub mod Store
pub mod Platform
pub mod Recordings
pub mod Turn
pub mod Router
pub mod Server
pub mod Session
pub mod Ratelimit
pub mod Auth
pub mod Config
pub mod Crypto
pub mod Identity
pub mod Examples
