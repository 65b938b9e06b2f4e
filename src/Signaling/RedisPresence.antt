-- ===== src/Signaling/RedisPresence.antt =====
-- backend/internal/signaling/redis.go: RedisPresence, a hash of signed counts for each room that all
-- instances share. A command of the transaction has one of three fates; EXPIRE shows in the model
-- as a key that goes.
pub mod Counting
pub mod Faults
use ar_app.Base.{
  ℕ, ◌≡◌, ◌<◌, Bool, true, false, not, ◌&&◌, Option, none, some, List, [], ◌∷◌, ◌++◌, String, ◌==◌,
  string_eq, if◌then◌else◌,
}
use Prim.Native.String
use ar_app.Base.Map.{Map, lookup, insert, erase}
use ar_app.Base.Int.{ℤ, pos, negsuc, is_positive, increment, decrement, pos_part}
use ar_app.Signaling.Role.{
  Role, role_eq, agent, phone, opposite, RoleMap, get_role, put_role, or_empty,
}
use ar_app.Signaling.Presence.{Count}

-- The hashes of Redis by key.
abbrev pub Hashes : Type 0
Hashes = Map String (RoleMap ℤ)

abbrev pub presence_key : String → String
presence_key room = String.◌++◌ "signaling:presence:" room

-- A missing field counts as 0.
abbrev pub or_zero : Option ℤ → ℤ
or_zero none = pos 0
or_zero (some n) = n

abbrev pub hash_at : Hashes → String → RoleMap ℤ
hash_at s room = or_empty (lookup (presence_key room) s)

abbrev pub field_of : Hashes → String → Role → ℤ
field_of s room role = or_zero (get_role (hash_at s room) role)

-- HINCRBY by 1 or by -1.
unfoldable pub hincr : (ℤ → ℤ) → Hashes → String → Role → Hashes
hincr by s room role =
    insert (presence_key room) (put_role role (by (field_of s room role)) (hash_at s room)) s

-- What becomes of the transaction: it runs and is answered, it runs and the answer is lost, or it
-- does not run.
pub data Fate : Type 0 where
  answered unanswered lost : Fate

-- One round of the loop over HGETALL in Join: an absent field is not in the reply.
abbrev other_field : Role → Role → Option ℤ → List Role
other_field role r n = if not (r == role) && is_positive (or_zero n) then r ∷ [] else []

abbrev other_fields : Role → RoleMap ℤ → List Role
other_fields role all = other_field role agent all.agents ++ other_field role phone all.phones

unfoldable pub redis_join : Fate → Hashes → String → Role → Hashes × List Role
unfolding hincr
redis_join answered s room role =
    let s' = hincr increment s room role in (s', other_fields role (hash_at s' room))
redis_join unanswered s room role = (hincr increment s room role, [])
redis_join lost s room role = (s, [])

-- The loop over HGETALL in Leave.
abbrev no_positive : RoleMap ℤ → Bool
no_positive all = not (is_positive (or_zero all.agents)) && not (is_positive (or_zero all.phones))

unfoldable pub redis_leave : Fate → Hashes → String → Role → Hashes × Bool
unfolding hincr
redis_leave answered s room role =
    let s' = hincr decrement s room role in (s', no_positive (hash_at s' room))
redis_leave unanswered s room role = (hincr decrement s room role, false)
redis_leave lost s room role = (s, false)

-- The time to live of a room's hash runs out.
unfoldable pub expire : Hashes → String → Hashes
expire s room = erase (presence_key room) s

-- The connections of a role that a hash counts.
abbrev pub redis_count : Count Hashes
redis_count s room role = pos_part (field_of s room role)
