-- ===== src/Signaling/Lifecycle/Counting.antt =====
-- How the number of counted connections changes when one connection changes its phase.
use ar_app.Base.{
  List, [], ◌≡◌, true, false, ◌&&◌, none, some, String, ◌==◌, string_eq, ◌+◌, ◌-◌, ◌<◌, arith,
  if◌then◌else◌,
}
use ar_app.Base.Map.{Map, lookup, insert, total-insert_old, total-insert_new, total-le}
use ar_app.Signaling.Role.{Role, role_eq}
use ar_app.Signaling.Hub.{PeerId}
use ar_app.Signaling.Lifecycle.{Task, Phase, opened, Conn, counted, weight, live}

abbrev Conns : Type 0
Conns = Map PeerId Conn

module _ (conns : Conns) (id : PeerId) (c : Conn) (phase : Phase) (found : lookup id conns ≡ some c)
    (room : String) (role : Role) where
  abbrev moved : Conn
  moved = record c { phase = phase }

  -- A counted connection is one of those that are counted in its room.
  pub live_pos : counted c.phase ≡ true → c.room ≡ room → c.role ≡ role → 0 < live conns room role
  live_pos e r o = ground (
    arith,
    total-le (weight room role) id c conns found,
    string_eq.beq_iff c.room room,
    role_eq.beq_iff c.role role,
  )

  pub live_same :
      counted c.phase ≡ counted phase
      → live (insert id moved conns) room role ≡ live conns room role
  live_same e = ground (arith, total-insert_old (weight room role) id moved c conns found)

  pub live_enter :
      counted c.phase ≡ false
      → counted phase ≡ true
      → live (insert id moved conns) room role ≡ (
          if c.room == room && c.role == role
          then live conns room role + 1
          else live conns room role)
  live_enter e e' = ground (arith, total-insert_old (weight room role) id moved c conns found)

  pub live_exit :
      counted c.phase ≡ true
      → counted phase ≡ false
      → live (insert id moved conns) room role ≡ (
          if c.room == room && c.role == role
          then live conns room role - 1
          else live conns room role)
  live_exit e e' = ground (arith, total-insert_old (weight room role) id moved c conns found)

-- The tasks of a connection do not matter.
pub live_tasks :
    (conns : Conns) (id : PeerId) (c : Conn) (tasks : List Task) (room : String) (role : Role)
    → lookup id conns ≡ some c
    → live (insert id (record c { tasks = tasks }) conns) room role ≡ live conns room role
live_tasks conns id c tasks room role found =
    ground
      (arith, total-insert_old (weight room role) id (record c { tasks = tasks }) c conns found)

pub live_open :
    (conns : Conns) (id : PeerId) (r : String) (o : Role) (room : String) (role : Role)
    → lookup id conns ≡ none
    → live (insert id (record { room = r; role = o; phase = opened; tasks = [] }) conns) room role
      ≡ live conns room role
live_open conns id r o room role fresh = ground (
  arith,
  total-insert_new (weight room role) id (record { room = r; role = o; phase = opened; tasks = [] })
      conns fresh,
)
