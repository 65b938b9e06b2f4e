-- ===== src/Signaling/Lifecycle/Moves.antt =====
-- The invariant of a system of connections, and that each region of a connection keeps it.
use ar_app.Base.{
  All, List, [], ◌∷◌, subst, ◌≡◌, ◌≢◌, sym, ◌∙◌, true, Option, some, String, ◌==◌, string_eq, inl,
  inr, arith, Bool-cases, ap,
}
use ar_app.Base.Map.{Map, lookup, insert, lookup-insert}
use ar_app.Signaling.Role.{Role, role_eq}
use ar_app.Signaling.Channel.{Frame, Outcome, done, WsPeer}
use ar_app.Signaling.Presence.{Presence}
use ar_app.Signaling.Hub.{Envelope, PeerId, Hub, occupant}
use ar_app.Signaling.Hub.Routing.{text_same}
use ar_app.Signaling.Hub.Invariant.{IsStored, IsValid, OnlySends}
use ar_app.Signaling.Lifecycle.{
  Task, finds, hands, with_tasks, Phase, Conn, System, at_phase, counted, held, live,
}
use ar_app.Signaling.Lifecycle.Counting.{live_same, live_tasks}

module _ (marshal : Envelope → Frame) (unmarshal : Frame → Option Envelope) (P : Presence) where
  -- The peer of a pointer that a goroutine holds is in the store.
  abbrev pub IsHeld : Map PeerId WsPeer → Task → Type 0
  IsHeld peers (finds room role frame) = Unit
  IsHeld peers (hands id frame) = (role : Role) × IsStored peers id role

  abbrev pub Stores : Map PeerId WsPeer → Map PeerId WsPeer → Type 0
  Stores peers peers' = (x : PeerId) (r : Role) → IsStored peers x r → IsStored peers' x r

  pub IsHeld-still :
      (peers peers' : Map PeerId WsPeer) (tasks : List Task)
      → Stores peers peers'
      → All (IsHeld peers) tasks
      → All (IsHeld peers') tasks
  IsHeld-still peers peers' [] stores all = tt
  IsHeld-still peers peers' (finds room role frame ∷ rest) stores (h, all) =
      (tt, IsHeld-still peers peers' rest stores all)
  IsHeld-still peers peers' (hands id frame ∷ rest) stores ((r, h), all) =
      ((r, stores id r h), IsHeld-still peers peers' rest stores all)

  -- The hub is valid, every connection has its peer in the store and holds pointers into it alone, every
  -- occupant of a role is a connection of that room and role which is registered and not yet removed, and
  -- the presence counts exactly the connections between their announcement and their departure.
  pub record IsSound (s : System marshal unmarshal P) : Type 0 where
    pub hub : IsValid marshal P s.hub
    pub stored :
        (id : PeerId) (c : Conn) → lookup id s.conns ≡ some c → IsStored s.hub.peers id c.role
    pub pointers :
        (id : PeerId) (c : Conn) → lookup id s.conns ≡ some c → All (IsHeld s.hub.peers) c.tasks
    pub holder :
        (room : String) (role : Role) (id : PeerId)
        → occupant marshal P s.hub room role ≡ some id
        → (c : Conn) × (lookup id s.conns ≡ some c)
          × (c.room ≡ room)
          × (c.role ≡ role)
          × (held c.phase ≡ true)
    pub tally :
        (room : String) (role : Role) → P.count s.hub.presence room role ≡ live s.conns room role

  -- A step succeeds, and leads to a sound system.
  abbrev pub Returns : Outcome (System marshal unmarshal P) → Type 0
  Returns r = (s : System marshal unmarshal P) × (r ≡ done s) × IsSound s

  -- A connection goes to another phase, with a hub that has the stored peers, at most the
  -- occupants of before, and the right counts.
  pub at_phase-IsSound :
      (s : System marshal unmarshal P) (id : PeerId) (c : Conn) (phase : Phase) (h : Hub marshal P)
      → IsSound s
      → lookup id s.conns ≡ some c
      → IsValid marshal P h
      → ((x : PeerId) (r : Role) → IsStored s.hub.peers x r → IsStored h.peers x r)
      → ((room : String) (role : Role) (x : PeerId)
          → occupant marshal P h room role ≡ some x
          → x ≢ id
          → occupant marshal P s.hub room role ≡ some x)
      → ((room : String) (role : Role)
          → occupant marshal P h room role ≡ some id
          → (c.room ≡ room) × (c.role ≡ role) × (held phase ≡ true))
      → ((room : String) (role : Role)
          → P.count h.presence room role
            ≡ live (insert id (record c { phase = phase }) s.conns) room role)
      → IsSound (at_phase marshal unmarshal P s id c phase h)
  at_phase-IsSound s id c phase h v found valid stores others own counts = record {
    hub = valid;
    stored = λ x d l. elim (Bool-cases (id == x)) [
      | inl e ↦
          let (p, lp, f) = stores id c.role (v.stored id c found) in
          (
            p,
            ground (arith, text_same id x),
            ground (arith, lookup-insert id x (record c { phase = phase }) s.conns),
          )
      | inr e ↦
          stores x d.role
            (v.stored x d (ground (arith, lookup-insert id x (record c { phase = phase }) s.conns)))
    ];
    pointers = λ x d l. elim (Bool-cases (id == x)) [
      | inl e ↦
          let same : record c { phase = phase } ≡ d =
            ground (arith, l, e, lookup-insert id x (record c { phase = phase }) s.conns) in
          subst (λ (y : Conn). All (IsHeld h.peers) y.tasks) same
            (IsHeld-still s.hub.peers h.peers c.tasks stores (v.pointers id c found))
      | inr e ↦ IsHeld-still s.hub.peers h.peers d.tasks stores (
          v.pointers x d
            (ground (arith, l, e, lookup-insert id x (record c { phase = phase }) s.conns)))
    ];
    holder = λ room role x o. elim (Bool-cases (id == x)) [
      | inl e ↦
          let (a, b, k) = own room role (ground (arith, text_same id x)) in
          (
            record c { phase = phase },
            ground (arith, lookup-insert id x (record c { phase = phase }) s.conns),
            a,
            b,
            k,
          )
      | inr e ↦
          let (d, l, a, b, k) =
            v.holder room role x (others room role x o (ground (arith, text_same id x))) in
          (d, ground (arith, lookup-insert id x (record c { phase = phase }) s.conns), a, b, k)
    ];
    tally = counts;
  }

  occupant_kept :
      (h h' : Hub marshal P) (room : String) (role : Role)
      → OnlySends marshal P h h'
      → occupant marshal P h' room role ≡ occupant marshal P h room role
  occupant_kept h h' room role o =
      ap (λ rooms. occupant marshal P (record h { rooms = rooms }) room role) o.rooms

  -- A run of sends keeps a system sound.
  pub sends-IsSound :
      (s : System marshal unmarshal P) (h : Hub marshal P)
      → IsSound s
      → IsValid marshal P h
      → OnlySends marshal P s.hub h
      → IsSound (record s { hub = h })
  sends-IsSound s h v valid o = record {
    hub = valid;
    stored = λ id c l. o.stored id c.role (v.stored id c l);
    pointers = λ id c l. IsHeld-still s.hub.peers h.peers c.tasks o.stored (v.pointers id c l);
    holder = λ room role id q. v.holder room role id (sym (occupant_kept s.hub h room role o) ∙ q);
    tally = λ room role. ap (λ t. P.count t room role) o.presence ∙ v.tally room role;
  }

  -- The connection that an occupant stands for is the one under its id.
  pub own_holder :
      (s : System marshal unmarshal P) (id : PeerId) (c : Conn) (room : String) (role : Role)
      → IsSound s
      → lookup id s.conns ≡ some c
      → occupant marshal P s.hub room role ≡ some id
      → (c.room ≡ room) × (c.role ≡ role) × (held c.phase ≡ true)
  own_holder s id c room role v found o =
      let (d, l, a, b, k) = v.holder room role id o in (ground arith, ground arith, ground arith)

  -- A change of phase alone.
  pub phase-IsSound :
      (s : System marshal unmarshal P) (id : PeerId) (c : Conn) (phase : Phase)
      → IsSound s
      → lookup id s.conns ≡ some c
      → counted c.phase ≡ counted phase
      → held c.phase ≡ held phase
      → IsSound (at_phase marshal unmarshal P s id c phase s.hub)
  phase-IsSound s id c phase v found e k =
      at_phase-IsSound s id c phase s.hub v found v.hub (λ x r t. t) (λ room role x o n. o)
        (λ room role o. ground (arith, own_holder s id c room role v found o))
        (λ room role. v.tally room role ∙ sym (live_same s.conns id c phase found room role e))

  -- A change of tasks alone.
  pub tasks-IsSound :
      (s : System marshal unmarshal P) (id : PeerId) (c : Conn) (tasks : List Task)
      → IsSound s
      → lookup id s.conns ≡ some c
      → All (IsHeld s.hub.peers) tasks
      → IsSound (with_tasks marshal unmarshal P s id c tasks s.hub)
  tasks-IsSound s id c tasks v found all =
      let look = λ (x : PeerId). lookup-insert id x (record c { tasks = tasks }) s.conns in
      record {
        hub = v.hub;
        stored = λ x d l. elim (Bool-cases (id == x)) [
          | inl e ↦
              let (p, lp, f) = v.stored id c found in
              (p, ground (arith, text_same id x), ground (arith, look x))
          | inr e ↦ v.stored x d (ground (arith, look x))
        ];
        pointers = λ x d l. elim (Bool-cases (id == x)) [
          | inl e ↦
              let same : record c { tasks = tasks } ≡ d = ground (arith, l, e, look x) in
              subst (λ (y : Conn). All (IsHeld s.hub.peers) y.tasks) same all
          | inr e ↦ v.pointers x d (ground (arith, l, e, look x))
        ];
        holder = λ room role x o.
            let (d, l, a, b, k) = v.holder room role x o in
            elim (Bool-cases (id == x)) [
              | inl e ↦
                  let same : c ≡ d = ground (arith, found, l, text_same id x) in
                  (
                    record c { tasks = tasks },
                    ground (arith, look x),
                    cc (same, a),
                    cc (same, b),
                    cc (same, k),
                  )
              | inr e ↦ (d, ground (arith, look x), a, b, k)
            ];
        tally =
            λ room role. v.tally room role ∙ sym (live_tasks s.conns id c tasks room role found);
      }
