-- ===== src/Signaling/Lifecycle/Safety.antt =====
-- What holds of every system of connections, in every interleaving of their goroutines.
use ar_app.Base.{
  ◌≡◌, ◌≢◌, subst, ◌∙◌, true, false, ◌&&◌, Option, some, List, [], ◌∷◌, ◌++◌, String, ◌==◌,
  string_eq, nat_eq, ℕ, ◌≤◌, arith, if◌then◌else◌,
}
use ar_app.Base.Map.{lookup, insert, total-le, lookup-insert}
use ar_app.Signaling.Role.{Role, agent, phone, role_eq, role_beq_iff}
use ar_app.Signaling.Channel.{Frame, Outcome, done}
use ar_app.Signaling.Presence.{Presence}
use ar_app.Signaling.Hub.{Envelope, PeerId, occupant, depart}
use ar_app.Signaling.Hub.Routing.{text_same}
use ar_app.Signaling.Lifecycle.{
  reading, removed, departed, Conn, Action, goes_on, System, initial, at_phase, advance, step, run,
  live, weight, held,
}
use ar_app.Signaling.Lifecycle.Moves.{IsSound}
use ar_app.Signaling.Lifecycle.Regions.{counts_one, depart-IsSound}
use ar_app.Signaling.Lifecycle.Steps.{initial-IsSound, run-Returns}

module _ (marshal : Envelope → Frame) (unmarshal : Frame → Option Envelope) (P : Presence) where
  -- The connections of a room that are left once a connection has departed.
  abbrev pub left : System marshal unmarshal P → PeerId → Conn → Role → ℕ
  left s id c role = live (insert id (record c { phase = departed }) s.conns) c.room role

  done_eq :
      (s t : System marshal unmarshal P) (r : Outcome (System marshal unmarshal P))
      → r ≡ done s
      → r ≡ done t
      → s ≡ t
  done_eq s t r a b = ground (arith, a, b)

  -- A system that a schedule returns is sound.
  pub reached-IsSound :
      (actions : List Action) (t : System marshal unmarshal P)
      → run marshal unmarshal P (initial marshal unmarshal P) actions ≡ done t
      → IsSound marshal unmarshal P t
  reached-IsSound actions t h =
      let (s, e, v) =
        run-Returns marshal unmarshal P _ actions (initial-IsSound marshal unmarshal P) in
      subst (IsSound marshal unmarshal P) (done_eq s t _ e h) v

  ended_lem :
      (s : System marshal unmarshal P) (id : PeerId) (c : Conn)
      → IsSound marshal unmarshal P s
      → lookup id s.conns ≡ some c
      → c.phase ≡ removed
      → (depart marshal P s.hub c.room c.role).ended ≡ (
          if (left s id c agent == 0 && left s id c phone == 0) && s.hub.listening
          then s.hub.ended ++ c.room ∷ []
          else s.hub.ended)
  unfolding depart
  ended_lem s id c v found e = ground (
    arith,
    P.leave_empty s.hub.presence c.room c.role v.hub.counted
        (counts_one marshal unmarshal P s id c v found e),
    (depart-IsSound marshal unmarshal P s id c v found e).tally c.room agent,
    (depart-IsSound marshal unmarshal P s id c v found e).tally c.room phone,
  )

  departed_step :
      (s : System marshal unmarshal P) (id : PeerId) (c : Conn)
      → lookup id s.conns ≡ some c
      → c.phase ≡ removed
      → step marshal unmarshal P s (goes_on id)
        ≡ done (at_phase marshal unmarshal P s id c departed (depart marshal P s.hub c.room c.role))
  unfolding step advance
  departed_step s id c found e = rw (found, step, e)

  -- From the initial system every schedule of opens, messages, drops and tear-downs, over any number
  -- of sockets, returns: no send hits a closed channel, no channel is closed twice and no pointer is
  -- nil. In the system that it returns the presence counts, for each role of each room, exactly the
  -- connections between their announcement and their departure.
  pub run_counts :
      (actions : List Action)
      → (s : System marshal unmarshal P) × (run marshal unmarshal P
            (initial marshal unmarshal P)
            actions
          ≡ done s)
        × ((room : String) (role : Role)
            → P.count s.hub.presence room role ≡ live s.conns room role)
  run_counts actions =
      let (s, e, v) =
        run-Returns marshal unmarshal P _ actions (initial-IsSound marshal unmarshal P) in
      (s, e, v.tally)

  -- In the system that any schedule returns, whoever holds a role of a room is a connection of that
  -- room and role that is registered and has not begun its tear-down.
  pub run_occupants :
      (actions : List Action)
      → (s : System marshal unmarshal P) × (run marshal unmarshal P
            (initial marshal unmarshal P)
            actions
          ≡ done s)
        × ((room : String) (role : Role) (id : PeerId)
            → occupant marshal P s.hub room role ≡ some id
            → (c : Conn) × (lookup id s.conns ≡ some c)
              × (c.room ≡ room)
              × (c.role ≡ role)
              × (held c.phase ≡ true))
  run_occupants actions =
      let (s, e, v) =
        run-Returns marshal unmarshal P _ actions (initial-IsSound marshal unmarshal P) in
      (s, e, v.holder)

  -- When a removed connection departs, in a system that a schedule has returned, the room-ended callback is called with its
  -- room, once, if a callback is registered and no counted connection of either role is left in the
  -- room; otherwise it is not called.
  pub depart_ends :
      (actions : List Action) (s : System marshal unmarshal P) (id : PeerId) (c : Conn)
      → run marshal unmarshal P (initial marshal unmarshal P) actions ≡ done s
      → lookup id s.conns ≡ some c
      → c.phase ≡ removed
      → (t : System marshal unmarshal P) × (step marshal unmarshal P s (goes_on id) ≡ done t)
        × (t.hub.ended ≡ (
            if (left s id c agent == 0 && left s id c phone == 0) && s.hub.listening
            then s.hub.ended ++ c.room ∷ []
            else s.hub.ended))
  depart_ends actions s id c h found e =
      (_, departed_step s id c found e, ended_lem s id c (reached-IsSound actions s h) found e)

  others_left :
      (s : System marshal unmarshal P) (id other : PeerId) (c d : Conn)
      → lookup other s.conns ≡ some d
      → other ≢ id
      → d.room ≡ c.room
      → d.phase ≡ reading
      → 1 ≤ left s id c d.role
  others_left s id other c d found ne same r = ground (
    arith,
    total-le (weight c.room d.role) other d (insert id (record c { phase = departed }) s.conns),
    lookup-insert id other (record c { phase = departed }) s.conns,
    text_same id other,
    text_same d.room c.room,
    role_beq_iff d.role d.role,
  )

  role_left :
      (s : System marshal unmarshal P) (id : PeerId) (c : Conn) (role : Role)
      → 1 ≤ left s id c role
      → (left s id c agent == 0 && left s id c phone == 0) ≡ false
  role_left s id c agent h = ground arith
  role_left s id c phone h = ground arith

  -- In a system that a schedule has returned, a removed connection that departs while another one of
  -- its room is still reading, such as an old socket whose peer has reconnected, ends nothing: the
  -- callback is not called.
  pub reconnect_keeps_room :
      (actions : List Action) (s : System marshal unmarshal P) (id other : PeerId) (c d : Conn)
      → run marshal unmarshal P (initial marshal unmarshal P) actions ≡ done s
      → lookup id s.conns ≡ some c
      → c.phase ≡ removed
      → lookup other s.conns ≡ some d
      → other ≢ id
      → d.room ≡ c.room
      → d.phase ≡ reading
      → (t : System marshal unmarshal P) × (step marshal unmarshal P s (goes_on id) ≡ done t)
        × (t.hub.ended ≡ s.hub.ended)
  reconnect_keeps_room actions s id other c d h found e found' ne same r =
      let (t, stepped, ended) = depart_ends actions s id c h found e in
      (
        t,
        stepped,
        ended ∙ rw (role_left s id c d.role (others_left s id other c d found' ne same r)),
      )
