-- ===== src/Signaling/RedisPresence/Counting.antt =====
-- While Redis answers and keeps its keys, RedisPresence counts connections: it fills the interface of
-- the hub, as LocalPresence does.
use ar_app.Base.{
  zero, suc, ◌+◌, ◌-◌, ◌<◌, ◌≡◌, ◌↔◌, refl, true, ◌&&◌, some, [], ◌∷◌, String, ◌==◌, nat_eq,
  string_eq, ltb, if◌then◌else◌, arith,
}
use text.Mathlib.TextLemmas.{append_cancel_left}
use ar_app.Base.Map.{lookup, insert, lookup-insert}
use ar_app.Base.Int.{ℤ, pos, negsuc, is_natural, increment, decrement, pos_part}
use ar_app.Signaling.Role.{Role, role_eq, role_beq_iff, agent, phone, opposite, RoleMap, put_role}
use ar_app.Signaling.Presence.{Presence}
use ar_app.Signaling.RedisPresence.{
  Hashes, presence_key, hash_at, field_of, hincr, answered, redis_join, redis_leave, redis_count,
}

text_same : (a b : String) → ((a == b) ≡ true) ↔ (a ≡ b)
text_same a b = string_eq.beq_iff a b

key_same : (room other : String) → (presence_key room == presence_key other) ≡ (room == other)
key_same room other = ground (
  arith,
  text_same room other,
  text_same (presence_key room) (presence_key other),
  append_cancel_left "signaling:presence:" room other,
)

hashes-insert :
    (k j : String) (v : RoleMap ℤ) (m : Hashes)
    → lookup j (insert k v m) ≡ (if k == j then some v else lookup j m)
hashes-insert = lookup-insert

pub field-hincr :
    (by : ℤ → ℤ) (s : Hashes) (room other : String) (role r : Role)
    → field_of (hincr by s room role) other r
      ≡ (if room == other && role == r then by (field_of s other r) else field_of s other r)
unfolding hincr
field-hincr by s room other agent agent = ground (
  arith,
  hashes-insert (presence_key room) (presence_key other)
      (put_role agent (by (field_of s room agent)) (hash_at s room)) s,
  key_same room other,
  text_same room other,
)
field-hincr by s room other agent phone = ground (
  arith,
  hashes-insert (presence_key room) (presence_key other)
      (put_role agent (by (field_of s room agent)) (hash_at s room)) s,
  key_same room other,
  text_same room other,
)
field-hincr by s room other phone agent = ground (
  arith,
  hashes-insert (presence_key room) (presence_key other)
      (put_role phone (by (field_of s room phone)) (hash_at s room)) s,
  key_same room other,
  text_same room other,
)
field-hincr by s room other phone phone = ground (
  arith,
  hashes-insert (presence_key room) (presence_key other)
      (put_role phone (by (field_of s room phone)) (hash_at s room)) s,
  key_same room other,
  text_same room other,
)

-- No field has fallen below 0.
pub record IsNatural (s : Hashes) : Type 0 where
  pub fields : (room : String) (role : Role) → is_natural (field_of s room role) ≡ true

increment-natural :
    (n : ℤ)
    → is_natural n ≡ true
    → (is_natural (increment n) ≡ true) × (pos_part (increment n) ≡ pos_part n + 1)
increment-natural (pos n) h = (refl, refl)
increment-natural (negsuc n) h = cc

decrement-natural :
    (n : ℤ)
    → 0 < pos_part n
    → (is_natural (decrement n) ≡ true) × (pos_part (decrement n) ≡ pos_part n - 1)
decrement-natural (pos zero) h = absurd (omega arith)
decrement-natural (pos (suc n)) h = (refl, omega arith)
decrement-natural (negsuc n) h = absurd (omega arith)

empty_field : (room : String) (role : Role) → is_natural (field_of [] room role) ≡ true
unfolding lookup
empty_field room agent = refl
empty_field room phone = refl

pub count-empty : (room : String) (role : Role) → redis_count [] room role ≡ 0
unfolding lookup
count-empty room agent = refl
count-empty room phone = refl

pub empty-IsNatural : IsNatural []
unfolding lookup
empty-IsNatural = record { fields = λ room role. empty_field room role }

hincr-IsNatural :
    (by : ℤ → ℤ) (s : Hashes) (room : String) (role : Role)
    → IsNatural s
    → is_natural (by (field_of s room role)) ≡ true
    → IsNatural (hincr by s room role)
hincr-IsNatural by s room role v h = record {
  fields = λ other r. ground (
    arith,
    field-hincr by s room other role r,
    v.fields other r,
    text_same room other,
    role_beq_iff role r,
  );
}

pub join-IsNatural :
    (s : Hashes) (room : String) (role : Role)
    → IsNatural s
    → IsNatural (redis_join answered s room role).0
unfolding redis_join
join-IsNatural s room role v =
    hincr-IsNatural increment s room role v
      (increment-natural (field_of s room role) (v.fields room role)).0

pub leave-IsNatural :
    (s : Hashes) (room : String) (role : Role)
    → IsNatural s
    → 0 < redis_count s room role
    → IsNatural (redis_leave answered s room role).0
unfolding redis_leave
leave-IsNatural s room role v n =
    hincr-IsNatural decrement s room role v (decrement-natural (field_of s room role) n).0

pub count-join :
    (s : Hashes) (room other : String) (role r : Role)
    → IsNatural s
    → redis_count (redis_join answered s room role).0 other r
      ≡ (if room == other && role == r then redis_count s other r + 1 else redis_count s other r)
unfolding redis_join
count-join s room other role r v = ground (
  arith,
  field-hincr increment s room other role r,
  increment-natural (field_of s other r) (v.fields other r),
)

pub count-leave :
    (s : Hashes) (room other : String) (role r : Role)
    → 0 < redis_count s room role
    → redis_count (redis_leave answered s room role).0 other r
      ≡ (if room == other && role == r then redis_count s other r - 1 else redis_count s other r)
unfolding redis_leave
count-leave s room other role r n = ground (
  arith,
  field-hincr decrement s room other role r,
  decrement-natural (field_of s other r),
  text_same room other,
  role_beq_iff role r,
)

pub join_others :
    (s : Hashes) (room : String) (role : Role)
    → (redis_join answered s room role).1
      ≡ (if ltb 0 (redis_count s room (opposite role)) then opposite role ∷ [] else [])
unfolding redis_join
join_others s room agent =
    ground (arith, field-hincr increment s room room agent phone, text_same room room)
join_others s room phone =
    ground (arith, field-hincr increment s room room phone agent, text_same room room)

pub leave_empty :
    (s : Hashes) (room : String) (role : Role)
    → (redis_leave answered s room role).1 ≡ (
        redis_count (redis_leave answered s room role).0 room agent == 0
        && redis_count (redis_leave answered s room role).0 room phone == 0)
unfolding redis_leave
leave_empty s room role = ground arith

-- RedisPresence has the laws of the interface.
abbrev pub redis_presence : Presence
redis_presence = record {
  State = Hashes;
  valid = IsNatural;
  empty = [];
  count = redis_count;
  join = redis_join answered;
  leave = redis_leave answered;
  empty-valid = empty-IsNatural;
  join-valid = join-IsNatural;
  leave-valid = leave-IsNatural;
  count-empty = count-empty;
  count-join = count-join;
  join_others = join_others;
  count-leave = λ s room other role r v n. count-leave s room other role r n;
  leave_empty = λ s room role v n. leave_empty s room role;
}
