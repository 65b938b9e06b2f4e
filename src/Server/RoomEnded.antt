-- ===== src/Server/RoomEnded.antt =====
-- backend/cmd/server/main.go: the callback that marks a session ended when its signaling room has no
-- occupants left.
use ar_app.Base.{
  ℕ, ◌≡◌, refl, sym, ◌∙◌, Bool, true, false, ◌&&◌, Option, none, some, List, [], ◌∷◌, ◌++◌, String,
  ◌==◌, nat_eq, string_eq, if◌then◌else◌, inl, inr, Bool-cases, beq_refl,
}
use mathlib.Core.List.{append-nil}
use ar_app.Base.Map.{lookup}
use ar_app.Platform.Uuid.{Uuid, Uuids}
use ar_app.Signaling.Role.{agent, phone}
use ar_app.Signaling.Channel.{Frame, done}
use ar_app.Signaling.Presence.{Presence}
use ar_app.Signaling.Hub.{Envelope, PeerId}
use ar_app.Signaling.Lifecycle.{Conn, Action, removed, goes_on, System, initial, step, run}
use ar_app.Signaling.Lifecycle.Safety.{left, depart_ends}
use ar_app.Session.Table.{active, ended, Session, Table, mark_ended, finished}
use ar_app.Session.Table.Life.{lookup-mark_ended}

module _ (U : Uuids) (now : ℕ) where
  abbrev mark_parsed : Bool → Option Uuid → Table → Table
  mark_parsed up none t = t
  mark_parsed false (some id) t = t
  mark_parsed true (some id) t = mark_ended id now t

  -- The function that main gives to OnRoomEnded, and whether Postgres answers it; it only logs errors.
  unfoldable pub room_ended : Bool → String → Table → Table
  room_ended up room t = mark_parsed up (U.parse room) t

  -- The calls of the callback, in order.
  unfoldable pub rooms_ended : Bool → List String → Table → Table
  unfolding room_ended
  rooms_ended up [] t = t
  rooms_ended up (room ∷ rest) t = rooms_ended up rest (room_ended up room t)

  one_ended :
      (id : Uuid) (t : Table) (row : Session)
      → lookup id t ≡ some row
      → lookup id (rooms_ended true (U.to_text id ∷ []) t) ≡ some (finished now row)
  unfolding rooms_ended
  one_ended id t row found =
      rw (U.parse-to_text id) (lookup-mark_ended id id now t row found ∙ rw (beq_refl id) refl)

  module _ (marshal : Envelope → Frame) (unmarshal : Frame → Option Envelope) (P : Presence) where
    abbrev Sys : Type 0
    Sys = System marshal unmarshal P

    -- Nobody is left in the room of a connection that departs, and a callback is registered.
    abbrev pub ends : Sys → PeerId → Conn → Bool
    ends s id c =
        (left marshal unmarshal P s id c agent == 0 && left marshal unmarshal P s id c phone == 0)
        && s.hub.listening

    -- In a system that a schedule has returned, when a removed connection of the room of a session departs,
    -- whose row is active, and Postgres answers, the calls of the callback that the step adds set the row to
    -- ended now if no counted connection is left in the room and a callback is registered; else the row
    -- stays as it is.
    pub departure_ends_session :
        (actions : List Action) (s : Sys) (id : PeerId) (c : Conn) (session : Uuid) (t : Table)
        (row : Session)
        → run marshal unmarshal P (initial marshal unmarshal P) actions ≡ done s
        → lookup id s.conns ≡ some c
        → c.phase ≡ removed
        → c.room ≡ U.to_text session
        → lookup session t ≡ some row
        → row.status ≡ active
        → (s' : Sys) × (calls : List String) × (step marshal unmarshal P s (goes_on id) ≡ done s')
          × (s'.hub.ended ≡ s.hub.ended ++ calls)
          × (lookup session (rooms_ended true calls t)
              ≡ some
                  (if ends s id c then record row { status = ended; ended_at = some now } else row))
    unfolding rooms_ended
    departure_ends_session actions s id c session t row h found e same row_found live =
        let (s', stepped, told) = depart_ends marshal unmarshal P actions s id c h found e in
        elim (Bool-cases (ends s id c)) [
          | inl last ↦ (
            s',
            c.room ∷ [],
            stepped,
            told ∙ rw (last) refl,
            rw (last, same) (one_ended session t row row_found ∙ rw (live) refl),
          )
          | inr others ↦ (
            s',
            [],
            stepped,
            told ∙ rw (others) (sym (append-nil s.hub.ended)),
            rw (others) row_found,
          )
        ]
