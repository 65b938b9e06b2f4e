-- ===== src/Signaling/Lifecycle/Steps.antt =====
-- Every action of a sound system returns, and leads to a sound system.
use ar_app.Base.{
  All, subst, ◌≡◌, ◌≢◌, refl, sym, ◌∙◌, Option, none, some, List, [], ◌∷◌, String, ◌==◌, string_eq,
  nat_eq, inl, inr, arith, Bool-cases, Option-cases,
}
use ar_app.Base.Map.{lookup, insert, total, lookup-insert}
use ar_app.Signaling.Role.{Role, agent, phone, role_eq}
use ar_app.Signaling.Channel.{Frame, done, ◌>>=◌, WsPeer, new_peer}
use ar_app.Signaling.Channel.Delivery.{close_send_lem, shut_down}
use ar_app.Signaling.Presence.{Presence}
use ar_app.Signaling.Hub.{Envelope, PeerId, new_hub, occupant}
use ar_app.Signaling.Hub.Routing.{text_same}
use ar_app.Signaling.Hub.Invariant.{IsStored, send_to-Succeeds, IsStored-insert}
use ar_app.Signaling.Hub.Upkeep.{with_peer-IsValid, closed-IsValid}
use ar_app.Signaling.Handler.{close_peer, bye}
use ar_app.Signaling.Lifecycle.{
  Task, finds, hands, with_tasks, relay_tasks, message_tasks, found_by, work, Phase, opened,
  registered, reading, removed, departed, closed, gone, Conn, Action, opens, reads, drops, goes_on,
  System, initial, at_phase, open_conn, advance, read_next, drop_conn, step, run,
}
use ar_app.Signaling.Lifecycle.Counting.{live_open}
use ar_app.Signaling.Lifecycle.Moves.{
  IsHeld, IsHeld-still, IsSound, Returns, sends-IsSound, phase-IsSound, tasks-IsSound,
}
use ar_app.Signaling.Lifecycle.Regions.{
  register-IsSound, announced-IsSound, then_tasks-IsSound, unregister-IsSound, depart-IsSound,
}

module _ (marshal : Envelope → Frame) (unmarshal : Frame → Option Envelope) (P : Presence) where
  nobody :
      (room : String) (role : Role) (id : PeerId)
      → occupant marshal P (new_hub marshal P) room role ≢ some id
  unfolding lookup
  nobody room agent id e = cc e
  nobody room phone id e = cc e

  pub initial-IsSound : IsSound marshal unmarshal P (initial marshal unmarshal P)
  unfolding lookup total
  initial-IsSound = record {
    hub = record {
      known = λ room role id o. absurd (nobody room role id o);
      guarded = λ id p e. absurd (cc e);
      counted = P.empty-valid;
    };
    stored = λ id c e. absurd (cc e);
    pointers = λ id c e. absurd (cc e);
    holder = λ room role id o. absurd (nobody room role id o);
    tally = λ room role. P.count-empty room role;
  }

  abbrev opened_conn : String → Role → Conn
  opened_conn room role = record { room = room; role = role; phase = opened; tasks = [] }

  fresh_conn :
      (s : System marshal unmarshal P) (id : PeerId)
      → IsSound marshal unmarshal P s
      → lookup id s.hub.peers ≡ none
      → lookup id s.conns ≡ none
  fresh_conn s id v fresh = elim (Option-cases (lookup id s.conns)) [
    | inl e ↦ e
    | inr (c, e) ↦ let (p, l, f) = v.stored id c e in ground arith
  ]

  open_conn-IsSound :
      (s : System marshal unmarshal P) (id : PeerId) (room : String) (role : Role)
      → IsSound marshal unmarshal P s
      → lookup id s.hub.peers ≡ none
      → IsSound marshal unmarshal P (open_conn marshal unmarshal P s id room role)
  unfolding open_conn
  open_conn-IsSound s id room role v fresh = record {
    hub = with_peer-IsValid marshal P s.hub id role v.hub fresh;
    stored = λ x c l. elim (Bool-cases (id == x)) [
      | inl e ↦ (
        new_peer role,
        ground (arith, lookup-insert id x (new_peer role) s.hub.peers),
        ground (arith, lookup-insert id x (opened_conn room role) s.conns),
      )
      | inr e ↦
          let (p, k, f) =
            v.stored x c (ground (arith, lookup-insert id x (opened_conn room role) s.conns)) in
          (p, ground (arith, lookup-insert id x (new_peer role) s.hub.peers), f)
    ];
    pointers = λ x c l. elim (Bool-cases (id == x)) [
      | inl e ↦
          let same : opened_conn room role ≡ c =
            ground (arith, l, e, lookup-insert id x (opened_conn room role) s.conns) in
          subst
            (λ (y : Conn).
              All (IsHeld marshal unmarshal P (insert id (new_peer role) s.hub.peers)) y.tasks)
            same tt
      | inr e ↦
          IsHeld-still marshal unmarshal P s.hub.peers (insert id (new_peer role) s.hub.peers)
            c.tasks
            (λ y r h.
              let (p, k, f) = h in
              (
                p,
                ground (
                  arith,
                  fresh,
                  k,
                  text_same id y,
                  lookup-insert id y (new_peer role) s.hub.peers,
                ),
                f,
              ))
            (v.pointers x c
              (ground (arith, l, e, lookup-insert id x (opened_conn room role) s.conns)))
    ];
    holder = λ r o x q.
        let (c, l, a, b, k) = v.holder r o x q in
        let (p, m, f) = v.stored x c l in
        (
          c,
          ground (arith, lookup-insert id x (opened_conn room role) s.conns, text_same id x),
          a,
          b,
          k,
        );
    tally = λ r o. v.tally r o ∙ sym (live_open s.conns id room role r o (fresh_conn s id v fresh));
  }

  closed-IsSound :
      (s : System marshal unmarshal P) (id : PeerId) (c : Conn) (p : WsPeer)
      → IsSound marshal unmarshal P s
      → lookup id s.conns ≡ some c
      → lookup id s.hub.peers ≡ some p
      → c.phase ≡ departed
      → IsSound marshal unmarshal P (
          at_phase marshal unmarshal P s id c closed
            (record s.hub { peers = insert id (shut_down p) s.hub.peers }))
  closed-IsSound s id c p v found l e =
      let moved =
        phase-IsSound marshal unmarshal P s id c closed v found (ground arith) (ground arith) in
      record {
        hub = closed-IsValid marshal P s.hub id p v.hub l;
        stored = λ x d k.
            IsStored-insert marshal P s.hub.peers id x p (shut_down p) d.role l refl
              (moved.stored x d k);
        pointers = λ x d k.
            IsHeld-still marshal unmarshal P s.hub.peers (insert id (shut_down p) s.hub.peers)
              d.tasks
              (λ y r h. IsStored-insert marshal P s.hub.peers id y p (shut_down p) r l refl h)
              (moved.pointers x d k);
        holder = moved.holder;
        tally = moved.tally;
      }

  close_peer-Returns :
      (s : System marshal unmarshal P) (id : PeerId) (c : Conn)
      → IsSound marshal unmarshal P s
      → lookup id s.conns ≡ some c
      → c.phase ≡ departed
      → Returns marshal unmarshal P (
          close_peer marshal unmarshal P s.hub id >>= λ h.
          done (at_phase marshal unmarshal P s id c closed h))
  unfolding close_peer
  close_peer-Returns s id c v found e =
      let (p, l, f) = v.stored id c found in
      (
        at_phase marshal unmarshal P s id c closed
            (record s.hub { peers = insert id (shut_down p) s.hub.peers }),
        rw (l, close_peer, close_send_lem p (v.hub.guarded id p l)),
        closed-IsSound s id c p v found l e,
      )

  bye-IsSound :
      (s : System marshal unmarshal P) (id : PeerId) (c : Conn)
      → IsSound marshal unmarshal P s
      → lookup id s.conns ≡ some c
      → c.phase ≡ closed
      → IsSound marshal unmarshal P (
          with_tasks marshal unmarshal P
            (at_phase marshal unmarshal P s id c gone s.hub)
            id
            (record c { phase = gone })
            (relay_tasks marshal unmarshal P c (bye marshal unmarshal P c.role))
            s.hub)
  bye-IsSound s id c v found e =
      then_tasks-IsSound marshal unmarshal P s id c gone s.hub
        (relay_tasks marshal unmarshal P c (bye marshal unmarshal P c.role))
        (phase-IsSound marshal unmarshal P s id c gone v found (ground arith) (ground arith))
        (tt, tt)

  found-IsHeld :
      (s : System marshal unmarshal P) (room : String) (role : Role) (frame : Frame)
      (rest : List Task)
      → IsSound marshal unmarshal P s
      → All (IsHeld marshal unmarshal P s.hub.peers) rest
      → All
          (IsHeld marshal unmarshal P s.hub.peers)
          (found_by marshal unmarshal P s.hub room role frame rest)
  unfolding found_by
  found-IsHeld s room role frame rest v all =
      elim (Option-cases (occupant marshal P s.hub room role)) [
        | inl e ↦ rw (e, All) all
        | inr (id, e) ↦ rw (e, All) ((role, v.hub.known room role id e), all)
      ]

  -- The next task of a connection returns.
  work-Returns :
      (s : System marshal unmarshal P) (id : PeerId) (c : Conn) (tasks : List Task)
      → IsSound marshal unmarshal P s
      → lookup id s.conns ≡ some c
      → All (IsHeld marshal unmarshal P s.hub.peers) tasks
      → Returns marshal unmarshal P (work marshal unmarshal P s id c tasks)
  unfolding work
  work-Returns s id c [] v found all = (s, refl, v)
  work-Returns s id c (finds room role frame ∷ rest) v found (h, all) = (
    _,
    refl,
    tasks-IsSound marshal unmarshal P s id c
        (found_by marshal unmarshal P s.hub room role frame rest) v found
        (found-IsHeld s room role frame rest v all),
  )
  work-Returns s id c (hands other frame ∷ rest) v found ((r, h), all) =
      let (hub, e, valid, o) = send_to-Succeeds marshal P s.hub other frame r v.hub h in
      (
        with_tasks marshal unmarshal P s id c rest hub,
        rw (e) refl,
        sends-IsSound marshal unmarshal P (with_tasks marshal unmarshal P s id c rest s.hub) hub
            (tasks-IsSound marshal unmarshal P s id c rest v found all) valid o,
      )

  message-IsHeld :
      (s : System marshal unmarshal P) (id : PeerId) (c : Conn) (message : Frame)
      → IsStored s.hub.peers id c.role
      → All
          (IsHeld marshal unmarshal P s.hub.peers)
          (message_tasks marshal unmarshal P id c message)
  unfolding message_tasks
  message-IsHeld s id c message h = elim (Option-cases (unmarshal message)) [
    | inl e ↦ rw (e, All) ((c.role, h), tt)
    | inr (env, e) ↦ rw (e, All) (tt, tt)
  ]

  pub advance-Returns :
      (s : System marshal unmarshal P) (id : PeerId) (c : Conn) (phase : Phase)
      → IsSound marshal unmarshal P s
      → lookup id s.conns ≡ some c
      → c.phase ≡ phase
      → Returns marshal unmarshal P (advance marshal unmarshal P s id c phase)
  unfolding advance
  advance-Returns s id c opened v found e =
      (_, refl, register-IsSound marshal unmarshal P s id c v found e)
  advance-Returns s id c registered v found e = (
    _,
    refl,
    announced-IsSound marshal unmarshal P s id c (P.join s.hub.presence c.room c.role).1 v found e,
  )
  advance-Returns s id c reading v found e =
      work-Returns s id c c.tasks v found (v.pointers id c found)
  advance-Returns s id c removed v found e =
      (_, refl, depart-IsSound marshal unmarshal P s id c v found e)
  advance-Returns s id c departed v found e = close_peer-Returns s id c v found e
  advance-Returns s id c closed v found e = (_, refl, bye-IsSound s id c v found e)
  advance-Returns s id c gone v found e =
      work-Returns s id c c.tasks v found (v.pointers id c found)

  read_next-IsSound :
      (s : System marshal unmarshal P) (id : PeerId) (c : Conn) (phase : Phase) (tasks : List Task)
      (message : Frame)
      → IsSound marshal unmarshal P s
      → lookup id s.conns ≡ some c
      → IsSound marshal unmarshal P (read_next marshal unmarshal P s id c phase tasks message)
  unfolding read_next
  read_next-IsSound s id c reading [] message v found =
      tasks-IsSound marshal unmarshal P s id c (message_tasks marshal unmarshal P id c message) v
        found (message-IsHeld s id c message (v.stored id c found))
  read_next-IsSound s id c _ _ message v found = v

  drop_conn-IsSound :
      (s : System marshal unmarshal P) (id : PeerId) (c : Conn) (phase : Phase) (tasks : List Task)
      → IsSound marshal unmarshal P s
      → lookup id s.conns ≡ some c
      → c.phase ≡ phase
      → IsSound marshal unmarshal P (drop_conn marshal unmarshal P s id c phase tasks)
  unfolding drop_conn
  drop_conn-IsSound s id c reading [] v found e =
      unregister-IsSound marshal unmarshal P s id c v found e
  drop_conn-IsSound s id c _ _ v found e = v

  -- Every action of a sound system succeeds and leads to a sound system.
  pub step-Returns :
      (s : System marshal unmarshal P) (a : Action)
      → IsSound marshal unmarshal P s
      → Returns marshal unmarshal P (step marshal unmarshal P s a)
  unfolding step
  step-Returns s (opens id room role) v = elim (Option-cases (lookup id s.hub.peers)) [
    | inl e ↦ rw (e, step) (_, refl, open_conn-IsSound s id room role v e)
    | inr (p, e) ↦ rw (e, step) (s, refl, v)
  ]
  step-Returns s (reads id message) v = elim (Option-cases (lookup id s.conns)) [
    | inl e ↦ rw (e, step) (s, refl, v)
    | inr (c, e) ↦ rw (e, step) (_, refl, read_next-IsSound s id c c.phase c.tasks message v e)
  ]
  step-Returns s (drops id) v = elim (Option-cases (lookup id s.conns)) [
    | inl e ↦ rw (e, step) (s, refl, v)
    | inr (c, e) ↦ rw (e, step) (_, refl, drop_conn-IsSound s id c c.phase c.tasks v e refl)
  ]
  step-Returns s (goes_on id) v = elim (Option-cases (lookup id s.conns)) [
    | inl e ↦ rw (e, step) (s, refl, v)
    | inr (c, e) ↦ rw (e, step) (advance-Returns s id c c.phase v e refl)
  ]

  pub run-Returns :
      (s : System marshal unmarshal P) (actions : List Action)
      → IsSound marshal unmarshal P s
      → Returns marshal unmarshal P (run marshal unmarshal P s actions)
  unfolding run
  run-Returns s [] v = (s, refl, v)
  run-Returns s (a ∷ rest) v =
      let (t, e, w) = step-Returns s a v in
      let (u, e', w') = run-Returns t rest w in (u, rw e e', w')
