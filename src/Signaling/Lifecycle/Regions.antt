-- ===== src/Signaling/Lifecycle/Regions.antt =====
-- That registering, announcing, removing and departing keep the invariant of a system.
use ar_app.Base.{
  All, List, [], ◌∷◌, ◌≡◌, ◌≢◌, refl, sym, ◌∙◌, ◌<◌, true, ◌&&◌, Option, some, String, ◌==◌,
  string_eq, inl, inr, arith, Bool-cases,
}
use ar_app.Base.Map.{Map, lookup, lookup-insert}
use ar_app.Signaling.Role.{opposite, Role, role_eq, role_beq_iff}
use ar_app.Signaling.Channel.{Frame, WsPeer}
use ar_app.Signaling.Presence.{Presence}
use ar_app.Signaling.Hub.{Envelope, PeerId, Hub, ready, occupant, register, unregister, depart}
use ar_app.Signaling.Hub.Routing.{occupant-register, occupant-unregister, text_same}
use ar_app.Signaling.Hub.Invariant.{IsStored}
use ar_app.Signaling.Hub.Upkeep.{
  register-IsValid, unregister-IsValid, with_presence-IsValid, peers-unregister,
  presence-unregister,
}
use ar_app.Signaling.Lifecycle.{
  Task, Phase, with_tasks, relay_tasks, ready_tasks, joined_hub, opened, registered, reading,
  removed, departed, Conn, System, at_phase, held,
}
use ar_app.Signaling.Lifecycle.Counting.{live_pos, live_same, live_enter, live_exit}
use ar_app.Signaling.Lifecycle.Moves.{IsHeld, IsSound, at_phase-IsSound, tasks-IsSound, own_holder}

module _ (marshal : Envelope → Frame) (unmarshal : Frame → Option Envelope) (P : Presence) where
  register_others :
      (h : Hub marshal P) (room other : String) (id x : PeerId) (role r : Role)
      → occupant marshal P (register marshal P h room id role) other r ≡ some x
      → x ≢ id
      → occupant marshal P h other r ≡ some x
  register_others h room other id x role r o n =
      ground (arith, occupant-register marshal P h room other id role r)

  register_own :
      (s : System marshal unmarshal P) (id : PeerId) (c : Conn)
      → IsSound marshal unmarshal P s
      → lookup id s.conns ≡ some c
      → c.phase ≡ opened
      → (room : String) (role : Role)
      → occupant marshal P (register marshal P s.hub c.room id c.role) room role ≡ some id
      → (c.room ≡ room) × (c.role ≡ role) × (held registered ≡ true)
  register_own s id c v found e room role o = elim (Bool-cases (c.room == room && c.role == role)) [
    | inl h ↦
        (ground (arith, text_same c.room room), ground (arith, role_beq_iff c.role role), refl)
    | inr h ↦
        let old : occupant marshal P s.hub room role ≡ some id =
          ground (arith, occupant-register marshal P s.hub c.room room id c.role role) in
        ground (arith, own_holder marshal unmarshal P s id c room role v found old)
  ]

  pub register-IsSound :
      (s : System marshal unmarshal P) (id : PeerId) (c : Conn)
      → IsSound marshal unmarshal P s
      → lookup id s.conns ≡ some c
      → c.phase ≡ opened
      → IsSound marshal unmarshal P (
          at_phase marshal unmarshal P s id c registered
            (register marshal P s.hub c.room id c.role))
  unfolding register
  register-IsSound s id c v found e =
      at_phase-IsSound marshal unmarshal P s id c registered
        (register marshal P s.hub c.room id c.role) v found
        (register-IsValid marshal P s.hub c.room id c.role v.hub (v.stored id c found)) (λ x r t. t)
        (λ room role x o n. register_others s.hub c.room room id x c.role role o n)
        (λ room role o. register_own s id c v found e room role o)
        (λ room role.
          v.tally room role
          ∙ sym (live_same s.conns id c registered found room role (ground arith)))

  -- The presence's half of Join.
  pub join-IsSound :
      (s : System marshal unmarshal P) (id : PeerId) (c : Conn)
      → IsSound marshal unmarshal P s
      → lookup id s.conns ≡ some c
      → c.phase ≡ registered
      → IsSound marshal unmarshal P (
          at_phase marshal unmarshal P s id c reading
            (record s.hub { presence = (P.join s.hub.presence c.room c.role).0 }))
  join-IsSound s id c v found e =
      at_phase-IsSound marshal unmarshal P s id c reading _ v found
        (with_presence-IsValid marshal P s.hub _ v.hub
          (P.join-valid s.hub.presence c.room c.role v.hub.counted))
        (λ x r t. t) (λ room role x o n. o)
        (λ room role o. ground (arith, own_holder marshal unmarshal P s id c room role v found o))
        λ room role. ground (
          arith,
          P.count-join s.hub.presence c.room room c.role role v.hub.counted,
          v.tally room role,
          live_enter s.conns id c reading found room role,
        )

  relay-IsHeld :
      (peers : Map PeerId WsPeer) (c : Conn) (frame : Frame)
      → All (IsHeld marshal unmarshal P peers) (relay_tasks marshal unmarshal P c frame)
  relay-IsHeld peers c frame = (tt, tt)

  ready-IsHeld :
      (peers : Map PeerId WsPeer) (id : PeerId) (c : Conn) (others : List Role)
      → IsStored peers id c.role
      → All (IsHeld marshal unmarshal P peers) (ready_tasks marshal unmarshal P id c others)
  unfolding ready_tasks
  ready-IsHeld peers id c [] h = tt
  ready-IsHeld peers id c (other ∷ others) h = elim (Bool-cases (other == opposite c.role)) [
    | inl e ↦ rw (e) ((c.role, h), relay-IsHeld peers c (ready marshal P))
    | inr e ↦ rw (e) (ready-IsHeld peers id c others h)
  ]

  -- A change of phase that is followed by tasks.
  pub then_tasks-IsSound :
      (s : System marshal unmarshal P) (id : PeerId) (c : Conn) (phase : Phase) (h : Hub marshal P)
      (tasks : List Task)
      → IsSound marshal unmarshal P (at_phase marshal unmarshal P s id c phase h)
      → All (IsHeld marshal unmarshal P h.peers) tasks
      → IsSound marshal unmarshal P (
          with_tasks marshal unmarshal P
            (at_phase marshal unmarshal P s id c phase h)
            id
            (record c { phase = phase })
            tasks
            h)
  then_tasks-IsSound s id c phase h tasks sound all =
      tasks-IsSound marshal unmarshal P (at_phase marshal unmarshal P s id c phase h) id
        (record c { phase = phase }) tasks sound
        (ground (arith, lookup-insert id id (record c { phase = phase }) s.conns, text_same id id))
        all

  pub announced-IsSound :
      (s : System marshal unmarshal P) (id : PeerId) (c : Conn) (others : List Role)
      → IsSound marshal unmarshal P s
      → lookup id s.conns ≡ some c
      → c.phase ≡ registered
      → IsSound marshal unmarshal P (
          with_tasks marshal unmarshal P
            (at_phase marshal unmarshal P s id c reading (joined_hub marshal unmarshal P s c))
            id
            (record c { phase = reading })
            (ready_tasks marshal unmarshal P id c others)
            (joined_hub marshal unmarshal P s c))
  announced-IsSound s id c others v found e =
      then_tasks-IsSound s id c reading (joined_hub marshal unmarshal P s c)
        (ready_tasks marshal unmarshal P id c others) (join-IsSound s id c v found e)
        (ready-IsHeld s.hub.peers id c others (v.stored id c found))

  unregister_others :
      (h : Hub marshal P) (room other : String) (id x : PeerId) (role r : Role)
      → occupant marshal P (unregister marshal P h room id role) other r ≡ some x
      → occupant marshal P h other r ≡ some x
  unregister_others h room other id x role r o =
      ground (arith, occupant-unregister marshal P h room other id role r)

  -- After its removal a connection holds no place.
  unregister_own :
      (s : System marshal unmarshal P) (id : PeerId) (c : Conn)
      → IsSound marshal unmarshal P s
      → lookup id s.conns ≡ some c
      → (room : String) (role : Role)
      → occupant marshal P (unregister marshal P s.hub c.room id c.role) room role ≢ some id
  unregister_own s id c v found room role o =
      let old = unregister_others s.hub c.room room id id c.role role o in
      let (a, b, k) = own_holder marshal unmarshal P s id c room role v found old in
      ground (
        arith,
        occupant-unregister marshal P s.hub c.room room id c.role role,
        text_same c.room room,
        text_same id id,
        role_beq_iff c.role role,
      )

  pub unregister-IsSound :
      (s : System marshal unmarshal P) (id : PeerId) (c : Conn)
      → IsSound marshal unmarshal P s
      → lookup id s.conns ≡ some c
      → c.phase ≡ reading
      → IsSound marshal unmarshal P (
          at_phase marshal unmarshal P s id c removed (unregister marshal P s.hub c.room id c.role))
  unregister-IsSound s id c v found e =
      at_phase-IsSound marshal unmarshal P s id c removed
        (unregister marshal P s.hub c.room id c.role) v found
        (unregister-IsValid marshal P s.hub c.room id c.role v.hub)
        (λ x r t. rw (peers-unregister marshal P s.hub c.room id c.role) t)
        (λ room role x o n. unregister_others s.hub c.room room id x c.role role o)
        (λ room role o. absurd (unregister_own s id c v found room role o))
        λ room role.
          rw (presence-unregister marshal P s.hub c.room id c.role) (
            v.tally room role ∙ sym (live_same s.conns id c removed found room role (ground arith)))

  -- The presence counts a connection that has not departed yet.
  pub counts_one :
      (s : System marshal unmarshal P) (id : PeerId) (c : Conn)
      → IsSound marshal unmarshal P s
      → lookup id s.conns ≡ some c
      → c.phase ≡ removed
      → 0 < P.count s.hub.presence c.room c.role
  counts_one s id c v found e =
      rw (v.tally c.room c.role)
        (live_pos s.conns id c removed found c.room c.role (ground arith) refl refl)

  pub depart-IsSound :
      (s : System marshal unmarshal P) (id : PeerId) (c : Conn)
      → IsSound marshal unmarshal P s
      → lookup id s.conns ≡ some c
      → c.phase ≡ removed
      → IsSound marshal unmarshal P
          (at_phase marshal unmarshal P s id c departed (depart marshal P s.hub c.room c.role))
  unfolding depart
  depart-IsSound s id c v found e =
      at_phase-IsSound marshal unmarshal P s id c departed (depart marshal P s.hub c.room c.role) v
        found
        (record {
          known = v.hub.known;
          guarded = v.hub.guarded;
          counted =
              P.leave-valid s.hub.presence c.room c.role v.hub.counted
                (counts_one s id c v found e);
        })
        (λ x r t. t) (λ room role x o n. o)
        (λ room role o. ground (arith, own_holder marshal unmarshal P s id c room role v found o))
        λ room role. ground (
          arith,
          P.count-leave s.hub.presence c.room room c.role role v.hub.counted
              (counts_one s id c v found e),
          v.tally room role,
          live_exit s.conns id c departed found room role,
        )
