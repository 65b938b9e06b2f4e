-- ===== src/Signaling/Handler.antt =====
-- backend/internal/signaling/handlers.go: who may join a room (ServeWS), what happens to each
-- message that is read (the loop of readPump), and the tear-down (its deferred function).
-- Also the signaling authorizer of backend/cmd/server/main.go.
pub mod Admission
use ar_app.Base.{
  ◌≡◌, Bool, true, false, not, ◌&&◌, ◌||◌, Option, none, some, String, ℕ, ◌==◌, string_eq,
  if◌then◌else◌,
}
use ar_app.Base.Map.{lookup, insert}
use ar_app.Signaling.Role.{Role, agent, phone, role_text}
use ar_app.Signaling.Channel.{Frame, Outcome, done, panic, ◌>>=◌, WsPeer, close_send}
use ar_app.Signaling.Presence.{Presence}
use ar_app.Signaling.Hub.{Envelope, PeerId, Hub, send_to, relay}

-- The parts of a request that ServeWS reads.
pub record Request : Type 0 where
  pub room : String
  pub role : String
  pub header_token : String
  pub query_token : String

pub data Verdict : Type 0 where
  http_error : ℕ → String → Verdict
  -- The upgrade failed; the library has written the response.
  upgrade_failed : Verdict
  admitted : String → Role → Verdict

-- `Authorizer`: true for a nil error.
abbrev pub Authorizer : Type 0
Authorizer = String → String → String → Bool

-- `role != RoleAgent && role != RolePhone` fails for the texts of the two roles.
abbrev pub parse_role : String → Option Role
parse_role text =
    if text == "agent" then some agent else if text == "phone" then some phone else none

-- The header's token, else the query's.
abbrev pub token_of : Request → String
token_of r = if r.header_token == "" then r.query_token else r.header_token

abbrev pub authorized : Option Authorizer → String → Role → String → Bool
authorized none room role token = true
authorized (some auth) room role token = auth room (role_text role) token

-- The decision of ServeWS: `is_uuid` is uuid.Parse without its result, `upgrades` the outcome of the
-- WebSocket upgrade.
unfoldable pub serve_ws : (String → Bool) → Option Authorizer → Bool → Request → Verdict
serve_ws is_uuid auth upgrades r =
    if not (is_uuid r.room) then http_error 400 "invalid room" else elim (parse_role r.role) [
      | none ↦ http_error 400 "role must be agent or phone"
      | some role ↦
          if authorized auth r.room role (token_of r)
          then (if upgrades then admitted r.room role else upgrade_failed)
          else http_error 401 "unauthorized"
    ]

module _ (marshal : Envelope → Frame) (unmarshal : Frame → Option Envelope) (P : Presence) where
  abbrev pub malformed : Frame
  malformed =
      marshal (record { kind = "error"; sender = ""; payload = some "\"malformed message\"" })

  -- One message in the loop of readPump.
  unfoldable pub receive : Hub marshal P → String → PeerId → Role → Frame → Outcome (Hub marshal P)
  receive h room id role message = elim (unmarshal message) [
    | none ↦ send_to marshal P h id malformed
    | some env ↦ relay marshal P h room role (marshal (record env { sender = role_text role }))
  ]

  -- `peer.closeSend()` through the pointer.
  unfoldable pub close_peer : Hub marshal P → PeerId → Outcome (Hub marshal P)
  close_peer h id = elim (lookup id h.peers) [
    | none ↦ panic
    | some p ↦ close_send p >>= λ q. done (record h { peers = insert id q h.peers })
  ]

  abbrev pub bye : Role → Frame
  bye role = marshal (record { kind = "bye"; sender = role_text role; payload = none })
