-- ===== src/Signaling/Lifecycle.antt =====
-- backend/internal/signaling: the sockets of one process as an interleaving. Each connection runs
-- ServeWS, then readPump with its deferred tear-down; an action is one region between two locks, and
-- a schedule says in which order the goroutines of all connections take their regions. A peer that is
-- looked up under the hub's lock is held by its pointer until the send, which takes the peer's lock.
pub mod Counting
pub mod Moves
pub mod Regions
pub mod Steps
pub mod Safety
pub mod Alone
use ar_app.Base.{
  ◌≡◌, Bool, true, false, Option, none, some, List, [], ◌∷◌, String, ◌==◌, string_eq, ℕ, ◌&&◌,
  if◌then◌else◌,
}
use ar_app.Base.Map.{Map, lookup, insert, total}
use ar_app.Signaling.Role.{Role, role_eq, role_text, opposite}
use ar_app.Signaling.Channel.{Frame, Outcome, done, panic, ◌>>=◌, new_peer}
use ar_app.Signaling.Presence.{Presence}
use ar_app.Signaling.Hub.{
  Envelope, PeerId, Hub, new_hub, occupant, ready, send_to, register, unregister, depart,
}
use ar_app.Signaling.Handler.{malformed, close_peer, bye}

-- How far a connection has come: made by ServeWS, registered, announced (readPump runs), removed by
-- Leave, counted out by Leave, its channel closed, its farewell said.
pub data Phase : Type 0 where
  opened registered reading removed departed closed gone : Phase

-- What a goroutine still has to do before its next phase: find the peer of a role, under the hub's
-- lock, or send a frame through a pointer that it holds, under the peer's.
pub data Task : Type 0 where
  finds : String → Role → Frame → Task
  hands : PeerId → Frame → Task

pub record Conn : Type 0 where
  pub room : String
  pub role : Role
  pub phase : Phase
  pub tasks : List Task

pub data Action : Type 0 where
  opens : PeerId → String → Role → Action
  -- The next region of the connection; for one that reads, the next message.
  reads : PeerId → Frame → Action
  -- ReadMessage fails, and the tear-down begins.
  drops : PeerId → Action
  -- Any other region: the connection goes on to its next phase.
  goes_on : PeerId → Action

module _ (marshal : Envelope → Frame) (unmarshal : Frame → Option Envelope) (P : Presence) where
  pub record System : Type 0 where
    pub hub : Hub marshal P
    pub conns : Map PeerId Conn

  abbrev pub initial : System
  initial = record { hub = record (new_hub marshal P) { listening = true }; conns = [] }

  abbrev pub at_phase : System → PeerId → Conn → Phase → Hub marshal P → System
  at_phase s id c phase h = record {
    hub = h;
    conns = insert id (record c { phase = phase }) s.conns;
  }

  unfoldable pub open_conn : System → PeerId → String → Role → System
  open_conn s id room role = record {
    hub = record s.hub { peers = insert id (new_peer role) s.hub.peers };
    conns = insert id (record { room = room; role = role; phase = opened; tasks = [] }) s.conns;
  }

  abbrev pub with_tasks : System → PeerId → Conn → List Task → Hub marshal P → System
  with_tasks s id c tasks h = record {
    hub = h;
    conns = insert id (record c { tasks = tasks }) s.conns;
  }

  -- The lookup of deliverLocal, and what is left of it.
  unfoldable pub found_by : Hub marshal P → String → Role → Frame → List Task → List Task
  found_by h room role frame rest = elim (occupant marshal P h room role) [
    | none ↦ rest
    | some id ↦ hands id frame ∷ rest
  ]

  -- The next task of a connection.
  unfoldable pub work : System → PeerId → Conn → List Task → Outcome System
  work s id c [] = done s
  work s id c (finds room role frame ∷ rest) =
      done (with_tasks s id c (found_by s.hub room role frame rest) s.hub)
  work s id c (hands other frame ∷ rest) =
      send_to marshal P s.hub other frame >>= λ h. done (with_tasks s id c rest h)

  -- Relay of a frame to the opposite role.
  abbrev pub relay_tasks : Conn → Frame → List Task
  relay_tasks c frame = finds c.room (opposite c.role) frame ∷ []

  -- What Join does with the roles that the presence names.
  unfoldable pub ready_tasks : PeerId → Conn → List Role → List Task
  ready_tasks id c [] = []
  ready_tasks id c (other ∷ others) =
      let later = ready_tasks id c others in
      if other == opposite c.role
      then hands id (ready marshal P) ∷ relay_tasks c (ready marshal P)
      else later

  -- What readPump does with a message.
  unfoldable pub message_tasks : PeerId → Conn → Frame → List Task
  message_tasks id c message = elim (unmarshal message) [
    | none ↦ hands id (malformed marshal unmarshal P) ∷ []
    | some env ↦ relay_tasks c (marshal (record env { sender = role_text c.role }))
  ]

  abbrev pub joined_hub : System → Conn → Hub marshal P
  joined_hub s c = record s.hub { presence = (P.join s.hub.presence c.room c.role).0 }

  -- The region of a connection after its phase.
  unfoldable pub advance : System → PeerId → Conn → Phase → Outcome System
  advance s id c opened =
      done (at_phase s id c registered (register marshal P s.hub c.room id c.role))
  advance s id c registered =
      let (counted, others) = P.join s.hub.presence c.room c.role in
      done (
        with_tasks (at_phase s id c reading (joined_hub s c)) id (record c { phase = reading })
          (ready_tasks id c others) (joined_hub s c))
  advance s id c reading = work s id c c.tasks
  advance s id c removed = done (at_phase s id c departed (depart marshal P s.hub c.room c.role))
  advance s id c departed =
      close_peer marshal unmarshal P s.hub id >>= λ h. done (at_phase s id c closed h)
  advance s id c closed = done (
      with_tasks (at_phase s id c gone s.hub) id (record c { phase = gone })
        (relay_tasks c (bye marshal unmarshal P c.role)) s.hub)
  advance s id c gone = work s id c c.tasks

  -- readPump reads when it has done with the message before.
  unfoldable pub read_next : System → PeerId → Conn → Phase → List Task → Frame → System
  read_next s id c reading [] message = with_tasks s id c (message_tasks id c message) s.hub
  read_next s id c _ _ message = s

  unfoldable pub drop_conn : System → PeerId → Conn → Phase → List Task → System
  drop_conn s id c reading [] =
      at_phase s id c removed (unregister marshal P s.hub c.room id c.role)
  drop_conn s id c _ _ = s

  -- An action that does not fit the connection's phase, or that reuses an id (uuid.NewString does
  -- not), does not happen.
  unfoldable pub step : System → Action → Outcome System
  unfolding open_conn advance read_next drop_conn
  step s (opens id room role) = elim (lookup id s.hub.peers) [
    | none ↦ done (open_conn s id room role)
    | some _ ↦ done s
  ]
  step s (reads id message) = elim (lookup id s.conns) [
    | none ↦ done s
    | some c ↦ done (read_next s id c c.phase c.tasks message)
  ]
  step s (drops id) = elim (lookup id s.conns) [
    | none ↦ done s
    | some c ↦ done (drop_conn s id c c.phase c.tasks)
  ]
  step s (goes_on id) = elim (lookup id s.conns) [ none ↦ done s | some c ↦ advance s id c c.phase ]

  unfoldable pub run : System → List Action → Outcome System
  unfolding step
  run s [] = done s
  run s (a ∷ rest) = step s a >>= λ s'. run s' rest

-- Whether the presence counts a connection: from its announcement to its departure.
abbrev pub counted : Phase → Bool
counted reading = true
counted removed = true
counted _ = false

-- Whether the hub may hold a connection: from its registration to its removal.
abbrev pub held : Phase → Bool
held registered = true
held reading = true
held _ = false

abbrev pub weight : String → Role → Conn → ℕ
weight room role c = if c.room == room && c.role == role && counted c.phase then 1 else 0

-- The connections of a role in a room that the presence counts.
abbrev pub live : Map PeerId Conn → String → Role → ℕ
live conns room role = total (weight room role) conns
