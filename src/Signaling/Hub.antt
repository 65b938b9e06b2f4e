-- ===== src/Signaling/Hub.antt =====
-- backend/internal/signaling/hub.go, with the LocalFanout of fanout.go: the peers of each room, and
-- the routing of frames between them. Peers are shared by pointer: the hub holds their ids, and
-- `peers` is the store that the ids point into.
pub mod Routing
pub mod Invariant
pub mod Upkeep
pub mod Pairing
use ar_app.Base.{
  ◌≡◌, Bool, true, false, ◌&&◌, Option, none, some, List, [], ◌∷◌, ◌++◌, String, ◌==◌, string_eq, ℕ,
  length, if◌then◌else◌,
}
use ar_app.Base.Map.{Map, lookup, insert, erase}
use ar_app.Signaling.Role.{
  Role, role_eq, opposite, role_text, RoleMap, get_role, put_role, delete_role, no_entries,
  or_empty,
}
use ar_app.Signaling.Channel.{Frame, Outcome, done, panic, ◌>>=◌, WsPeer, send}
use ar_app.Signaling.Presence.{Presence}

-- The wire format of handlers.go; the payload is the raw text of a JSON value.
pub record Envelope : Type 0 where
  pub kind : String
  pub sender : String
  pub payload : Option String

abbrev pub PeerId : Type 0
PeerId = String

-- The JSON library, and the presence that the hub is made with.
module _ (marshal : Envelope → Frame) (P : Presence) where
  pub record Hub : Type 0 where
    pub rooms : Map String (RoleMap PeerId)
    pub presence : P.State
    pub peers : Map PeerId WsPeer
    -- Whether a room-ended callback is registered, and the rooms that it was called with.
    pub listening : Bool
    pub ended : List String

  -- NewHubWith
  abbrev pub new_hub : Hub
  new_hub = record { rooms = []; presence = P.empty; peers = []; listening = false; ended = [] }

  -- OnRoomEnded
  abbrev pub on_room_ended : Hub → Hub
  on_room_ended h = record h { listening = true }

  -- `p.Send(frame)` through a pointer; the hub drops the result.
  unfoldable pub send_to : Hub → PeerId → Frame → Outcome Hub
  send_to h id frame = elim (lookup id h.peers) [
    | none ↦ panic
    | some p ↦ send p frame >>= λ r. done (record h { peers = insert id r.0 h.peers })
  ]

  -- The local peer of a role in a room.
  abbrev pub occupant : Hub → String → Role → Option PeerId
  occupant h room role = get_role (or_empty (lookup room h.rooms)) role

  -- deliverLocal
  unfoldable pub deliver_local : Hub → String → Role → Frame → Outcome Hub
  unfolding send_to
  deliver_local h room target frame = elim (occupant h room target) [
    | none ↦ done h
    | some id ↦ send_to h id frame
  ]

  -- LocalFanout.Publish
  abbrev pub publish : Hub → String → Role → Frame → Outcome Hub
  publish h room target frame = deliver_local h room target frame

  abbrev pub ready : Frame
  ready = marshal (record { kind = "peer-ready"; sender = ""; payload = none })

  -- The first half of Join, under the hub's lock.
  unfoldable pub register : Hub → String → PeerId → Role → Hub
  register h room id role = record h {
    rooms = insert room (put_role role id (or_empty (lookup room h.rooms))) h.rooms;
  }

  -- The loop of Join over the other roles that are present.
  unfoldable pub notify : Hub → String → PeerId → Role → List Role → Outcome Hub
  unfolding deliver_local
  notify h room id role [] = done h
  notify h room id role (other ∷ others) =
      if other == opposite role
      then (send_to h id ready >>= λ h'. publish h' room (opposite role) ready)
      else notify h room id role others

  -- The second half of Join: the presence, and the notification.
  unfoldable pub announce : Hub → String → PeerId → Role → Outcome Hub
  unfolding notify
  announce h room id role =
      let (counted, others) = P.join h.presence room role in
      notify (record h { presence = counted }) room id role others

  unfoldable pub join : Hub → String → PeerId → Role → Outcome Hub
  unfolding register announce
  join h room id role = announce (register h room id role) room id role

  -- `cur.ID() == p.ID()` of an entry that may be missing.
  abbrev pub holds : Option PeerId → PeerId → Bool
  holds none id = false
  holds (some current) id = current == id

  -- The removal of Leave, under the hub's lock.
  unfoldable pub unregister : Hub → String → PeerId → Role → Hub
  unregister h room id role = elim (lookup room h.rooms) [
    | none ↦ h
    | some peers ↦
        let kept = if holds (get_role peers role) id then delete_role role peers else peers in
        record h {
          rooms = if no_entries kept then erase room h.rooms else insert room kept h.rooms;
        }
  ]

  -- The second half of Leave: the presence, and the callback. The callback was read with the lock.
  unfoldable pub depart : Hub → String → Role → Hub
  depart h room role =
      let (counted, empty) = P.leave h.presence room role in
      record h {
        presence = counted;
        ended = if empty && h.listening then h.ended ++ room ∷ [] else h.ended;
      }

  unfoldable pub leave : Hub → String → PeerId → Role → Hub
  unfolding unregister depart
  leave h room id role = depart (unregister h room id role) room role

  -- Relay
  unfoldable pub relay : Hub → String → Role → Frame → Outcome Hub
  unfolding deliver_local
  relay h room role frame = publish h room (opposite role) frame

  -- RoomCount
  abbrev pub room_count : Hub → ℕ
  room_count h = length h.rooms
