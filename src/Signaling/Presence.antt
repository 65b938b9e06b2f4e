-- ===== src/Signaling/Presence.antt =====
-- backend/internal/signaling/fanout.go and presence_local.go: which roles are in a room.
-- `Presence` is the interface with the laws that the hub relies on; LocalPresence fills it.
pub mod Counting
pub mod Refinement
use ar_app.Base.{
  ℕ, suc, ◌+◌, ◌-◌, ◌≡◌, ◌<◌, Bool, true, false, not, ◌&&◌, Option, none, some, List, [], ◌∷◌, ◌++◌,
  String, ◌==◌, nat_eq, string_eq, ltb, leb, if◌then◌else◌,
}
use ar_app.Base.Map.{Map, lookup, insert, erase}
use ar_app.Signaling.Role.{
  Role, role_eq, agent, phone, opposite, RoleMap, get_role, put_role, delete_role, no_entries,
  or_empty,
}

-- The number of connections of a role that a state of a presence counts.
abbrev pub Count : Type 0 → Type 0
Count S = S → String → Role → ℕ

pub record Presence : Type 1 where
  pub State : Type 0
  pub valid : State → Type 0
  pub empty : State
  pub count : Count State
  pub join : State → String → Role → State × List Role
  pub leave : State → String → Role → State × Bool
  pub empty-valid : valid empty
  pub join-valid : (s : State) (room : String) (role : Role) → valid s → valid (join s room role).0
  pub leave-valid :
      (s : State) (room : String) (role : Role)
      → valid s
      → 0 < count s room role
      → valid (leave s room role).0
  pub count-empty : (room : String) (role : Role) → count empty room role ≡ 0
  pub count-join :
      (s : State) (room other : String) (role r : Role)
      → valid s
      → count (join s room role).0 other r
        ≡ (if room == other && role == r then count s other r + 1 else count s other r)
  pub join_others :
      (s : State) (room : String) (role : Role)
      → (join s room role).1
        ≡ (if ltb 0 (count s room (opposite role)) then opposite role ∷ [] else [])
  pub count-leave :
      (s : State) (room other : String) (role r : Role)
      → valid s
      → 0 < count s room role
      → count (leave s room role).0 other r
        ≡ (if room == other && role == r then count s other r - 1 else count s other r)
  pub leave_empty :
      (s : State) (room : String) (role : Role)
      → valid s
      → 0 < count s room role
      → (leave s room role).1 ≡ (
          count (leave s room role).0 room agent == 0
          && count (leave s room role).0 room phone == 0)

-- LocalPresence: `rooms map[string]map[Role]int`.
abbrev pub LocalPresence : Type 0
LocalPresence = Map String (RoleMap ℕ)

-- `m[role]`, Go's zero for a missing role.
abbrev pub or_zero : Option ℕ → ℕ
or_zero none = 0
or_zero (some n) = n

-- One round of the loop over the counts of a room, for the role `r`.
abbrev other_entry : Role → Role → Option ℕ → List Role
other_entry role r n = if not (r == role) && ltb 0 (or_zero n) then r ∷ [] else []

unfoldable pub local_join : LocalPresence → String → Role → LocalPresence × List Role
local_join rooms room role =
    let counts = or_empty (lookup room rooms) in
    let counted = put_role role (or_zero (get_role counts role) + 1) counts in
    (
      insert room counted rooms,
      other_entry role agent counted.agents ++ other_entry role phone counted.phones,
    )

-- The decrement of Leave, and the removal of a role whose count is 0 after it.
abbrev decrement : Role → RoleMap ℕ → RoleMap ℕ
decrement role counts =
    if ltb 0 (or_zero (get_role counts role))
    then put_role role (or_zero (get_role counts role) - 1) counts
    else counts

abbrev prune : Role → RoleMap ℕ → RoleMap ℕ
prune role counts =
    if leb (or_zero (get_role counts role)) 0 then delete_role role counts else counts

pub leave_room : LocalPresence → String → RoleMap ℕ → LocalPresence × Bool
leave_room rooms room counts =
    if no_entries counts then (erase room rooms, true) else (insert room counts rooms, false)

unfoldable pub local_leave : LocalPresence → String → Role → LocalPresence × Bool
unfolding leave_room
local_leave rooms room role = elim (lookup room rooms) [
  | none ↦ (rooms, true)
  | some counts ↦ leave_room rooms room (prune role (decrement role counts))
]

-- The count that a LocalPresence holds for a role of a room.
abbrev pub local_count : Count LocalPresence
local_count rooms room role = or_zero (get_role (or_empty (lookup room rooms)) role)
