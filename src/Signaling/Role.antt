-- ===== src/Signaling/Role.antt =====
-- backend/internal/signaling/hub.go: the two roles of a room, and Go maps keyed by a role.
-- A peer is created by ServeWS only, which refuses every other role text, so the type has the two
-- constants of the source. A `map[Role]A` is a record of two optional entries.
use ar_app.Base.{◌≡◌, ◌↔◌, Bool, true, false, Option, none, some, String, arith, Eq, if◌then◌else◌}

pub data Role : Type 0 where
  agent phone : Role

abbrev pub role_beq : Role → Role → Bool
role_beq agent agent = true
role_beq phone phone = true
role_beq _ _ = false

pub role_beq_iff : (a b : Role) → (role_beq a b ≡ true) ↔ (a ≡ b)
role_beq_iff a b = ground arith

instance abbrev pub role_eq : Eq Role
role_eq = record { beq = role_beq; beq_iff = role_beq_iff }

abbrev pub opposite : Role → Role
opposite agent = phone
opposite phone = agent

-- `string(role)`, as it goes into a token or an envelope.
abbrev pub role_text : Role → String
role_text agent = "agent"
role_text phone = "phone"

pub record RoleMap (A : Type 0) : Type 0 where
  pub agents : Option A
  pub phones : Option A

module _ {A : Type 0} where
  abbrev pub no_roles : RoleMap A
  no_roles = record { agents = none; phones = none }

  abbrev pub get_role : RoleMap A → Role → Option A
  get_role m agent = m.agents
  get_role m phone = m.phones

  abbrev pub put_role : Role → A → RoleMap A → RoleMap A
  put_role agent a m = record m { agents = some a }
  put_role phone a m = record m { phones = some a }

  abbrev pub delete_role : Role → RoleMap A → RoleMap A
  delete_role agent m = record m { agents = none }
  delete_role phone m = record m { phones = none }

  -- `len(m) == 0`
  abbrev is_absent : Option A → Bool
  is_absent none = true
  is_absent (some a) = false

  abbrev pub no_entries : RoleMap A → Bool
  no_entries m = if is_absent m.agents then is_absent m.phones else false

  -- `m[room]` of a map of maps, with Go's nil for a missing room.
  abbrev pub or_empty : Option (RoleMap A) → RoleMap A
  or_empty none = no_roles
  or_empty (some m) = m
