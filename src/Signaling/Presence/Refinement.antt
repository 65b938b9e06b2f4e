-- ===== src/Signaling/Presence/Refinement.antt =====
-- backend/internal/signaling: a presence as its callers see it. The specification is a tally of
-- connections, and a presence with the laws of the interface gives the replies of the tally.
use ar_app.Base.{
  ℕ, ◌+◌, ◌-◌, ◌<◌, ◌≡◌, refl, sym, ◌∙◌, true, ◌&&◌, Bool, List, [], ◌∷◌, String, ◌==◌, nat_eq,
  string_eq, ltb, if◌then◌else◌, arith,
}
use ar_app.Signaling.Role.{Role, role_eq, agent, phone, opposite}
use ar_app.Signaling.Presence.{Presence}
use ar_app.Signaling.Presence.Counting.{local_presence}
use ar_app.Signaling.RedisPresence.Counting.{redis_presence}

pub data Call : Type 0 where
  joins leaves : String → Role → Call

pub data Reply : Type 0 where
  others : List Role → Reply
  room_empty : Bool → Reply

-- The connections of each role in each room.
abbrev pub Tally : Type 0
Tally = String → Role → ℕ

abbrev pub no_one : Tally
no_one room role = 0

abbrev pub one_more : Tally → String → Role → Tally
one_more t room role other r = if room == other && role == r then t other r + 1 else t other r

abbrev pub one_less : Tally → String → Role → Tally
one_less t room role other r = if room == other && role == r then t other r - 1 else t other r

abbrev pub after_call : Tally → Call → Tally
after_call t (joins room role) = one_more t room role
after_call t (leaves room role) = one_less t room role

-- Each Leave has a connection that joined before and has not left.
abbrev pub is_paired : Tally → List Call → Bool
is_paired t [] = true
is_paired t (joins room role ∷ calls) = is_paired (one_more t room role) calls
is_paired t (leaves room role ∷ calls) =
    ltb 0 (t room role) && is_paired (one_less t room role) calls

abbrev tally_replies : Tally → List Call → List Reply
tally_replies t [] = []
tally_replies t (joins room role ∷ calls) =
    others (if ltb 0 (t room (opposite role)) then opposite role ∷ [] else [])
    ∷ tally_replies (one_more t room role) calls
tally_replies t (leaves room role ∷ calls) =
    let t' = one_less t room role in
    room_empty (t' room agent == 0 && t' room phone == 0) ∷ tally_replies t' calls

module _ (P : Presence) where
  abbrev pub replies : P.State → List Call → List Reply
  replies s [] = []
  replies s (joins room role ∷ calls) =
      others (P.join s room role).1 ∷ replies (P.join s room role).0 calls
  replies s (leaves room role ∷ calls) =
      room_empty (P.leave s room role).1 ∷ replies (P.leave s room role).0 calls

  record Refines (s : P.State) (t : Tally) : Type 0 where
    valid : P.valid s
    same : (room : String) (role : Role) → P.count s room role ≡ t room role

  join-Refines :
      (s : P.State) (t : Tally) (room : String) (role : Role)
      → Refines s t
      → Refines (P.join s room role).0 (one_more t room role)
  join-Refines s t room role v = record {
    valid = P.join-valid s room role v.valid;
    same = λ other r. ground (arith, P.count-join s room other role r v.valid, v.same other r);
  }

  leave-Refines :
      (s : P.State) (t : Tally) (room : String) (role : Role)
      → Refines s t
      → 0 < P.count s room role
      → Refines (P.leave s room role).0 (one_less t room role)
  leave-Refines s t room role v n = record {
    valid = P.leave-valid s room role v.valid n;
    same = λ other r. ground (arith, P.count-leave s room other role r v.valid n, v.same other r);
  }

  replies-Refines :
      (s : P.State) (t : Tally) (calls : List Call)
      → Refines s t
      → is_paired t calls ≡ true
      → replies s calls ≡ tally_replies t calls
  replies-Refines s t [] v h = refl
  replies-Refines s t (joins room role ∷ calls) v h = cc (
    P.join_others s room role,
    v.same room (opposite role),
    replies-Refines (P.join s room role).0 (one_more t room role) calls
        (join-Refines s t room role v) h,
  )
  replies-Refines s t (leaves room role ∷ calls) v h =
      let n : 0 < P.count s room role = ground (arith, v.same room role) in
      let v' = leave-Refines s t room role v n in
      cc (
        P.leave_empty s room role v.valid n,
        v'.same room agent,
        v'.same room phone,
        replies-Refines (P.leave s room role).0 (one_less t room role) calls v' (ground arith),
      )

  -- A presence that starts empty gives, to any calls of Join and Leave in which each Leave has a connection
  -- that joined before and has not left, the replies of a plain tally of the connections.
  pub replies-tally :
      (calls : List Call)
      → is_paired no_one calls ≡ true
      → replies P.empty calls ≡ tally_replies no_one calls
  replies-tally calls =
      replies-Refines P.empty no_one calls (record { valid = P.empty-valid; same = P.count-empty })

-- While Redis answers and keeps its keys, RedisPresence and LocalPresence give the same replies to the
-- same calls of Join and Leave, in which each Leave has a connection that joined before and has not
-- left.
pub redis_replies_local :
    (calls : List Call)
    → is_paired no_one calls ≡ true
    → replies redis_presence [] calls ≡ replies local_presence [] calls
redis_replies_local calls h =
    replies-tally redis_presence calls h ∙ sym (replies-tally local_presence calls h)
