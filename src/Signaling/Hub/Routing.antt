-- ===== src/Signaling/Hub/Routing.antt =====
-- Where the operations of the hub put peers and frames.
use ar_app.Base.{◌≡◌, ◌↔◌, true, ◌&&◌, none, some, String, ◌==◌, string_eq, arith, if◌then◌else◌}
use ar_app.Base.Map.{Map, lookup, insert, erase, lookup-insert, lookup-erase}
use ar_app.Signaling.Role.{Role, agent, phone, role_eq, opposite, RoleMap}
use ar_app.Signaling.Channel.{Frame, done, WsPeer}
use ar_app.Signaling.Channel.Delivery.{IsGuarded, sent, send_lem}
use ar_app.Signaling.Presence.{Presence}
use ar_app.Signaling.Hub.{
  Envelope, PeerId, Hub, send_to, occupant, deliver_local, register, holds, unregister, relay,
}

abbrev Rooms : Type 0
Rooms = Map String (RoleMap PeerId)

rooms-insert :
    (room other : String) (v : RoleMap PeerId) (m : Rooms)
    → lookup other (insert room v m) ≡ (if room == other then some v else lookup other m)
rooms-insert = lookup-insert

rooms-erase :
    (room other : String) (m : Rooms)
    → lookup other (erase room m) ≡ (if room == other then none else lookup other m)
rooms-erase = lookup-erase

pub text_same : (a b : String) → ((a == b) ≡ true) ↔ (a ≡ b)
text_same a b = string_eq.beq_iff a b

module _ (marshal : Envelope → Frame) (P : Presence) where
  -- Registration replaces the occupant of one role of one room.
  pub occupant-register :
      (h : Hub marshal P) (room other : String) (id : PeerId) (role r : Role)
      → occupant marshal P (register marshal P h room id role) other r
        ≡ (if room == other && role == r then some id else occupant marshal P h other r)
  unfolding register
  occupant-register h room other id agent agent = grind (arith, rooms-insert, text_same)
  occupant-register h room other id agent phone = grind (arith, rooms-insert, text_same)
  occupant-register h room other id phone agent = grind (arith, rooms-insert, text_same)
  occupant-register h room other id phone phone = grind (arith, rooms-insert, text_same)

  -- The removal of Leave empties a role's place only if the leaving peer still holds it, so a
  -- stale socket does not evict the one that replaced it; every other place is left alone.
  pub occupant-unregister :
      (h : Hub marshal P) (room other : String) (id : PeerId) (role r : Role)
      → occupant marshal P (unregister marshal P h room id role) other r ≡ (
          if room == other && role == r && holds marshal P (occupant marshal P h room role) id
          then none
          else occupant marshal P h other r)
  unfolding unregister
  occupant-unregister h room other id agent agent =
      grind (arith, rooms-insert, rooms-erase, text_same)
  occupant-unregister h room other id agent phone =
      grind (arith, rooms-insert, rooms-erase, text_same)
  occupant-unregister h room other id phone agent =
      grind (arith, rooms-insert, rooms-erase, text_same)
  occupant-unregister h room other id phone phone =
      grind (arith, rooms-insert, rooms-erase, text_same)

  -- The hub after a send to a peer of the store.
  abbrev pub after_send : Hub marshal P → PeerId → WsPeer → Frame → Hub marshal P
  after_send h id p frame = record h { peers = insert id (sent p frame) h.peers }

  pub send_to_lem :
      (h : Hub marshal P) (id : PeerId) (p : WsPeer) (frame : Frame)
      → lookup id h.peers ≡ some p
      → IsGuarded p
      → send_to marshal P h id frame ≡ done (after_send h id p frame)
  unfolding send_to
  send_to_lem h id p frame e g = rw (e, send_to, send_lem p frame g)

  pub lookup-after_send :
      (h : Hub marshal P) (id other : PeerId) (p : WsPeer) (frame : Frame)
      → lookup other (after_send h id p frame).peers
        ≡ (if id == other then some (sent p frame) else lookup other h.peers)
  lookup-after_send h id other p frame = lookup-insert id other (sent p frame) h.peers

  pub deliver_local-none :
      (h : Hub marshal P) (room : String) (target : Role) (frame : Frame)
      → occupant marshal P h room target ≡ none
      → deliver_local marshal P h room target frame ≡ done h
  unfolding deliver_local
  deliver_local-none h room target frame e = rw (e, deliver_local)

  pub deliver_local-some :
      (h : Hub marshal P) (room : String) (target : Role) (frame : Frame) (id : PeerId) (p : WsPeer)
      → occupant marshal P h room target ≡ some id
      → lookup id h.peers ≡ some p
      → IsGuarded p
      → deliver_local marshal P h room target frame ≡ done (after_send h id p frame)
  unfolding deliver_local
  deliver_local-some h room target frame id p o e g =
      rw (o, deliver_local) (send_to_lem h id p frame e g)

  -- Relay puts the frame at the end of the queue of the one peer that holds the opposite role in the
  -- sender's room, or drops it if that queue is full or closed. No other peer and nothing else of
  -- the hub changes.
  pub relay_lem :
      (h : Hub marshal P) (room : String) (role : Role) (frame : Frame) (id : PeerId) (p : WsPeer)
      → occupant marshal P h room (opposite role) ≡ some id
      → lookup id h.peers ≡ some p
      → IsGuarded p
      → relay marshal P h room role frame ≡ done (after_send h id p frame)
  unfolding relay
  relay_lem h room role frame id p = deliver_local-some h room (opposite role) frame id p
