-- ===== src/Signaling/RedisPresence/Faults.antt =====
-- RedisPresence when Redis fails: what Leave reports if transactions are lost, and if a room's hash
-- runs out.
use ar_app.Base.{
  ◌<◌, ◌≤◌, ◌≡◌, true, false, ◌&&◌, Bool, List, [], ◌∷◌, String, nat_eq, string_eq, ltb, arith,
  beq_refl,
}
use ar_app.Base.Int.{decrement}
use ar_app.Base.Map.{lookup-erase}
use ar_app.Signaling.Role.{Role, role_eq, agent, phone, opposite}
use ar_app.Signaling.Presence.Refinement.{
  Call, joins, leaves, Tally, no_one, one_more, one_less, after_call,
}
use ar_app.Signaling.RedisPresence.{
  Hashes, Fate, answered, unanswered, lost, redis_join, redis_leave, redis_count, expire, hincr,
  presence_key,
}
use ar_app.Signaling.RedisPresence.Counting.{
  IsNatural, count-join, count-leave, join-IsNatural, leave-IsNatural, empty-IsNatural, count-empty,
  leave_empty, field-hincr,
}

abbrev pub call_state : Hashes → Fate → Call → Hashes
call_state s fate (joins room role) = (redis_join fate s room role).0
call_state s fate (leaves room role) = (redis_leave fate s room role).0

-- The calls that reached the store, and the connections that really are there.
abbrev pub calls_state : Hashes → List (Call × Fate) → Hashes
calls_state s [] = s
calls_state s ((call, fate) ∷ calls) = calls_state (call_state s fate call) calls

abbrev pub calls_tally : Tally → List (Call × Fate) → Tally
calls_tally t [] = t
calls_tally t ((call, fate) ∷ calls) = calls_tally (after_call t call) calls

abbrev is_lost : Fate → Bool
is_lost lost = true
is_lost _ = false

-- Each Leave has a connection, and no Join is lost.
abbrev pub joins_arrive : Tally → List (Call × Fate) → Bool
joins_arrive t [] = true
joins_arrive t ((joins room role, lost) ∷ calls) = false
joins_arrive t ((joins room role, fate) ∷ calls) = joins_arrive (one_more t room role) calls
joins_arrive t ((leaves room role, fate) ∷ calls) =
    ltb 0 (t room role) && joins_arrive (one_less t room role) calls

-- The hash counts at least the connections that are there.
record Covers (s : Hashes) (t : Tally) : Type 0 where
  natural : IsNatural s
  bound : (room : String) (role : Role) → t room role ≤ redis_count s room role

join-Covers :
    (s : Hashes) (t : Tally) (room : String) (role : Role)
    → Covers s t
    → Covers (redis_join answered s room role).0 (one_more t room role)
join-Covers s t room role v = record {
  natural = join-IsNatural s room role v.natural;
  bound = λ other r. ground (arith, count-join s room other role r v.natural, v.bound other r);
}

leave-Covers :
    (s : Hashes) (t : Tally) (room : String) (role : Role)
    → Covers s t
    → 0 < t room role
    → Covers (redis_leave answered s room role).0 (one_less t room role)
leave-Covers s t room role v n =
    let m : 0 < redis_count s room role = omega (arith, v.bound room role) in
    record {
      natural = leave-IsNatural s room role v.natural m;
      bound = λ other r. ground (arith, count-leave s room other role r m, v.bound other r);
    }

lost_leave-Covers :
    (s : Hashes) (t : Tally) (room : String) (role : Role)
    → Covers s t
    → Covers s (one_less t room role)
lost_leave-Covers s t room role v = record {
  natural = v.natural;
  bound = λ other r. ground (arith, v.bound other r);
}

call-Covers :
    (s : Hashes) (t : Tally) (calls : List (Call × Fate))
    → Covers s t
    → joins_arrive t calls ≡ true
    → Covers (calls_state s calls) (calls_tally t calls)
unfolding redis_join redis_leave
call-Covers s t [] v h = v
call-Covers s t ((joins room role, answered) ∷ calls) v h =
    call-Covers (redis_join answered s room role).0 _ calls (join-Covers s t room role v) h
call-Covers s t ((joins room role, unanswered) ∷ calls) v h =
    call-Covers (redis_join unanswered s room role).0 _ calls (join-Covers s t room role v) h
call-Covers s t ((joins room role, lost) ∷ calls) v h = absurd (cc h)
call-Covers s t ((leaves room role, answered) ∷ calls) v h =
    call-Covers (redis_leave answered s room role).0 _ calls
      (leave-Covers s t room role v (ground (arith, h))) (ground arith)
call-Covers s t ((leaves room role, unanswered) ∷ calls) v h =
    call-Covers (redis_leave unanswered s room role).0 _ calls
      (leave-Covers s t room role v (ground (arith, h))) (ground arith)
call-Covers s t ((leaves room role, lost) ∷ calls) v h =
    call-Covers s _ calls (lost_leave-Covers s t room role v) (ground arith)

empty_reply :
    (fate : Fate) (s : Hashes) (t : Tally) (room : String) (role : Role)
    → Covers s t
    → 0 < t room role
    → (redis_leave fate s room role).1 ≡ true
    → (one_less t room role room agent ≡ 0) × (one_less t room role room phone ≡ 0)
unfolding redis_leave
empty_reply answered s t room role v n e =
    let v' = leave-Covers s t room role v n in
    ground (arith, leave_empty s room role, v'.bound room agent, v'.bound room phone)
empty_reply unanswered s t room role v n e = absurd (cc e)
empty_reply lost s t room role v n e = absurd (cc e)

-- Whatever becomes of the transactions of Leave, and of the answers to those of Join: as long as each
-- transaction of Join runs, each Leave has a connection, and the keys are kept, a Leave reports a room
-- empty only if no connection of either role is left in it.
pub leave_empty_true :
    (calls : List (Call × Fate)) (fate : Fate) (room : String) (role : Role)
    → joins_arrive no_one calls ≡ true
    → 0 < calls_tally no_one calls room role
    → (redis_leave fate (calls_state [] calls) room role).1 ≡ true
    → (one_less (calls_tally no_one calls) room role room agent ≡ 0)
      × (one_less (calls_tally no_one calls) room role room phone ≡ 0)
leave_empty_true calls fate room role h n e =
    empty_reply fate (calls_state [] calls) (calls_tally no_one calls) room role
      (call-Covers [] no_one calls
        (record {
          natural = empty-IsNatural;
          bound = λ other r. omega (arith, count-empty other r);
        })
        h)
      n e

-- A connection that joins a room that counts nobody, and leaves, reports it empty.
alone_leave_empty :
    (s : Hashes) (room : String) (role : Role)
    → IsNatural s
    → redis_count s room role ≡ 0
    → redis_count s room (opposite role) ≡ 0
    → (redis_leave answered (redis_join answered s room role).0 room role).1 ≡ true
alone_leave_empty s room agent v h k = ground (
  arith,
  beq_refl room,
  leave_empty (redis_join answered s room agent).0 room agent,
  count-join s room room agent phone v,
  count-join s room room agent agent v,
  count-leave (redis_join answered s room agent).0 room room agent agent,
  count-leave (redis_join answered s room agent).0 room room agent phone,
)
alone_leave_empty s room phone v h k = ground (
  arith,
  beq_refl room,
  leave_empty (redis_join answered s room phone).0 room phone,
  count-join s room room phone agent v,
  count-join s room room phone phone v,
  count-leave (redis_join answered s room phone).0 room room phone phone,
  count-leave (redis_join answered s room phone).0 room room phone agent,
)

-- If the transaction of a Join is lost in a room that counts nobody, a connection of the other role
-- that joins and leaves after it reports the room empty, although the first connection is still there.
pub lost_join_ends :
    (s : Hashes) (room : String) (role : Role)
    → IsNatural s
    → redis_count s room role ≡ 0
    → redis_count s room (opposite role) ≡ 0
    → (redis_leave answered
        (redis_join answered (redis_join lost s room role).0 room (opposite role)).0
        room
        (opposite role)).1
      ≡ true
unfolding redis_join
lost_join_ends s room agent v h k = alone_leave_empty s room phone v k h
lost_join_ends s room phone v h k = alone_leave_empty s room agent v k h

-- When the hash of a room runs out, the next Leave of any role reports the room empty, whoever is
-- connected.
pub expired_leave_ends :
    (s : Hashes) (room : String) (role : Role)
    → (redis_leave answered (expire s room) room role).1 ≡ true
unfolding redis_leave expire hincr
expired_leave_ends s room agent = ground (
  arith,
  field-hincr decrement (expire s room) room room agent agent,
  field-hincr decrement (expire s room) room room agent phone,
  lookup-erase (presence_key room) (presence_key room) s,
  beq_refl (presence_key room),
)
expired_leave_ends s room phone = ground (
  arith,
  field-hincr decrement (expire s room) room room phone agent,
  field-hincr decrement (expire s room) room room phone phone,
  lookup-erase (presence_key room) (presence_key room) s,
  beq_refl (presence_key room),
)
