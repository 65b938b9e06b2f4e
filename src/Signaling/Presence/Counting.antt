-- ===== src/Signaling/Presence/Counting.antt =====
-- LocalPresence counts connections: it fills the interface of the hub.
use ar_app.Base.{
  ℕ, ◌+◌, ◌-◌, ◌≡◌, ◌≢◌, Bool-cases, beq_refl, refl, ◌↔◌, inl, inr, true, false, ◌&&◌, none, some,
  [], ◌∷◌, String, ◌==◌, nat_eq, string_eq, ltb, if◌then◌else◌, arith, Option-cases,
}
use ar_app.Base.Map.{lookup, insert, erase, lookup-insert, lookup-erase}
use ar_app.Signaling.Role.{
  role_eq, no_entries, Role, agent, phone, opposite, RoleMap, get_role, or_empty,
}
use ar_app.Signaling.Presence.{
  Presence, LocalPresence, leave_room, local_join, local_leave, local_count,
}

-- Reading a room of the map after a write, at the type that both operations use.
rooms-insert :
    (room other : String) (v : RoleMap ℕ) (m : LocalPresence)
    → lookup other (insert room v m) ≡ (if room == other then some v else lookup other m)
rooms-insert = lookup-insert

rooms-erase :
    (room other : String) (m : LocalPresence)
    → lookup other (erase room m) ≡ (if room == other then none else lookup other m)
rooms-erase = lookup-erase

rooms_same : (room other : String) → ((room == other) ≡ true) ↔ (room ≡ other)
rooms_same room other = string_eq.beq_iff room other

pub local_count-join :
    (s : LocalPresence) (room other : String) (role r : Role)
    → local_count (local_join s room role).0 other r
      ≡ (if room == other && role == r then local_count s other r + 1 else local_count s other r)
unfolding local_join
local_count-join s room other agent agent = grind (arith, rooms-insert, rooms_same)
local_count-join s room other agent phone = grind (arith, rooms-insert, rooms_same)
local_count-join s room other phone agent = grind (arith, rooms-insert, rooms_same)
local_count-join s room other phone phone = grind (arith, rooms-insert, rooms_same)

pub local_join_others :
    (s : LocalPresence) (room : String) (role : Role)
    → (local_join s room role).1
      ≡ (if ltb 0 (local_count s room (opposite role)) then opposite role ∷ [] else [])
unfolding local_join
local_join_others s room agent = ground arith
local_join_others s room phone = ground arith

pub local_count-leave :
    (s : LocalPresence) (room other : String) (role r : Role)
    → local_count (local_leave s room role).0 other r
      ≡ (if room == other && role == r then local_count s other r - 1 else local_count s other r)
unfolding local_leave
local_count-leave s room other agent agent = grind (arith, rooms-insert, rooms-erase, rooms_same)
local_count-leave s room other agent phone = grind (arith, rooms-insert, rooms-erase, rooms_same)
local_count-leave s room other phone agent = grind (arith, rooms-insert, rooms-erase, rooms_same)
local_count-leave s room other phone phone = grind (arith, rooms-insert, rooms-erase, rooms_same)

-- No role is stored with a count of 0, and no room without a role.
abbrev pub IsTidyRoom : RoleMap ℕ → Type 0
IsTidyRoom counts =
    (counts.agents ≢ some 0) × (counts.phones ≢ some 0) × (no_entries counts ≡ false)

pub record IsTidy (s : LocalPresence) : Type 0 where
  pub rooms : (room : String) (counts : RoleMap ℕ) → lookup room s ≡ some counts → IsTidyRoom counts

pub empty-IsTidy : IsTidy []
unfolding lookup
empty-IsTidy = record { rooms = λ room counts e. absurd (cc e) }

insert-IsTidy :
    (s : LocalPresence) (room : String) (v : RoleMap ℕ)
    → IsTidy s
    → IsTidyRoom v
    → IsTidy (insert room v s)
insert-IsTidy s room v t tv = record {
  rooms = λ other counts e. ground (arith, rooms-insert room other v s, t.rooms other counts);
}

erase-IsTidy : (s : LocalPresence) (room : String) → IsTidy s → IsTidy (erase room s)
erase-IsTidy s room t = record {
  rooms = λ other counts e. ground (arith, rooms-erase room other s, t.rooms other counts);
}

-- A room that is read, stored or not: no zero is in it.
tidy_lookup :
    (s : LocalPresence) (room : String)
    → IsTidy s
    → (get_role (or_empty (lookup room s)) agent ≢ some 0)
      × (get_role (or_empty (lookup room s)) phone ≢ some 0)
tidy_lookup s room t = elim (Option-cases (lookup room s)) [
  | inl e ↦ rw e ((λ h. cc), (λ h. cc))
  | inr (c, e) ↦ rw e (let (a, b, d) = t.rooms room c e in (a, b))
]

pub local_join-IsTidy :
    (s : LocalPresence) (room : String) (role : Role) → IsTidy s → IsTidy (local_join s room role).0
unfolding local_join
local_join-IsTidy s room agent t = insert-IsTidy s room _ t (ground (arith, tidy_lookup s room t))
local_join-IsTidy s room phone t = insert-IsTidy s room _ t (ground (arith, tidy_lookup s room t))

leave_room-IsTidy :
    (s : LocalPresence) (room : String) (v : RoleMap ℕ)
    → IsTidy s
    → (v.agents ≢ some 0)
    → (v.phones ≢ some 0)
    → IsTidy (leave_room s room v).0
unfolding leave_room
leave_room-IsTidy s room v t a b = elim (Bool-cases (no_entries v)) [
  | inl e ↦ rw e (erase-IsTidy s room t)
  | inr e ↦ rw e (insert-IsTidy s room v t (a, b, e))
]

pub local_leave-IsTidy :
    (s : LocalPresence) (room : String) (role : Role)
    → IsTidy s
    → IsTidy (local_leave s room role).0
unfolding local_leave
local_leave-IsTidy s room role t = elim (Option-cases (lookup room s)) [
  | inl e ↦ rw (e, local_leave) t
  | inr (c, e) ↦
      rw (e, local_leave)
        (leave_room-IsTidy s room _ t (ground (arith, t.rooms room c e))
          (ground (arith, t.rooms room c e)))
]

leave_room_empty :
    (s : LocalPresence) (room : String) (v : RoleMap ℕ)
    → (v.agents ≢ some 0)
    → (v.phones ≢ some 0)
    → (leave_room s room v).1 ≡ (
        local_count (leave_room s room v).0 room agent == 0
        && local_count (leave_room s room v).0 room phone == 0)
unfolding leave_room
leave_room_empty s room v a b =
    ground (arith, rooms-insert room room v s, rooms-erase room room s, beq_refl room)

pub local_count-empty : (room : String) (role : Role) → local_count [] room role ≡ 0
unfolding lookup
local_count-empty room agent = refl
local_count-empty room phone = refl

-- Leave of a LocalPresence that stores no zero and no empty room reports that the room is empty exactly
-- if no connection of either role is counted in it any more.
pub local_leave_empty :
    (s : LocalPresence) (room : String) (role : Role)
    → IsTidy s
    → (local_leave s room role).1 ≡ (
        local_count (local_leave s room role).0 room agent == 0
        && local_count (local_leave s room role).0 room phone == 0)
unfolding local_leave
local_leave_empty s room role t = elim (Option-cases (lookup room s)) [
  | inl e ↦ rw (e, local_leave, local_count, e)
  | inr (c, e) ↦
      rw (e, local_leave)
        (leave_room_empty s room _ (ground (arith, t.rooms room c e))
          (ground (arith, t.rooms room c e)))
]

-- LocalPresence has the laws of the interface.
abbrev pub local_presence : Presence
local_presence = record {
  State = LocalPresence;
  valid = IsTidy;
  empty = [];
  count = local_count;
  join = local_join;
  leave = local_leave;
  empty-valid = empty-IsTidy;
  join-valid = local_join-IsTidy;
  leave-valid = λ s room role t n. local_leave-IsTidy s room role t;
  count-empty = local_count-empty;
  count-join = λ s room other role r t. local_count-join s room other role r;
  join_others = local_join_others;
  count-leave = λ s room other role r t n. local_count-leave s room other role r;
  leave_empty = λ s room role t n. local_leave_empty s room role t;
}
