-- ===== src/Examples/Presences.antt =====
-- Runs of the two presences, and of instances that share Redis.
use ar_app.Base.{◌≡◌, refl, true, List, [], ◌∷◌, string_eq, nat_eq, arith}
use ar_app.Base.Map.{lookup, insert}
use ar_app.Signaling.Role.{agent, phone}
use ar_app.Signaling.Presence.Refinement.{
  Call, joins, leaves, no_one, one_less, replies, redis_replies_local,
}
use ar_app.Signaling.Presence.Counting.{local_presence}
use ar_app.Signaling.RedisPresence.{Fate, answered, unanswered, lost, redis_join, redis_leave}
use ar_app.Signaling.RedisPresence.Counting.{redis_presence, empty-IsNatural, count-empty}
use ar_app.Signaling.RedisPresence.Faults.{
  calls_state, calls_tally, leave_empty_true, lost_join_ends,
}

abbrev meeting : List Call
meeting =
    joins "r" agent ∷ joins "r" phone ∷ joins "r" agent ∷ leaves "r" agent ∷ leaves "r" phone ∷ []

redis_replies_local_example : replies redis_presence [] meeting ≡ replies local_presence [] meeting
redis_replies_local_example = redis_replies_local meeting refl

-- The answer to a Join is lost, and a Leave of another room.
abbrev stormy : List (Call × Fate)
stormy = (joins "q" agent, answered) ∷ (joins "r" phone, unanswered) ∷ (leaves "q" agent, lost) ∷ []

reports_empty : (redis_leave answered (calls_state [] stormy) "r" phone).1 ≡ true
unfolding redis_leave redis_join lookup insert
reports_empty = refl

leave_empty_true_example :
    (one_less (calls_tally no_one stormy) "r" phone "r" agent ≡ 0)
    × (one_less (calls_tally no_one stormy) "r" phone "r" phone ≡ 0)
leave_empty_true_example =
    leave_empty_true stormy answered "r" phone refl (omega arith) reports_empty

lost_join_ends_example :
    (redis_leave answered
      (redis_join answered (redis_join lost [] "r" agent).0 "r" phone).0
      "r"
      phone).1
    ≡ true
lost_join_ends_example =
    lost_join_ends [] "r" agent empty-IsNatural (count-empty "r" agent) (count-empty "r" phone)
