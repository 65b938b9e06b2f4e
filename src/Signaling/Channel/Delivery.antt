-- ===== src/Signaling/Channel/Delivery.antt =====
-- What a peer's channel promises: no panic, and delivery in order.
use ar_app.Base.{
  ℕ, ◌+◌, ◌<◌, All, ◌≡◌, refl, Bool, true, false, List, [], ◌∷◌, ◌++◌, map, arith, length,
  length-append, ◌≤◌, ltb, if◌then◌else◌,
}
use ar_app.Signaling.Channel.{
  Frame, Outcome, done, WsPeer, send_buffer, send, close_send, Wire, text, closing, ping, Wake,
  received, ticked, write_round, write_pump, ◌>>=◌, new_peer,
}
use ar_app.Signaling.Role.{Role}

-- The channel is closed exactly when the flag that guards it is set, and holds at most its buffer.
pub record IsGuarded (p : WsPeer) : Type 0 where
  pub flagged : p.channel.shut ≡ p.closed
  pub bounded : length p.channel.buffer ≤ send_buffer

pub new_peer-IsGuarded : (r : Role) → IsGuarded (new_peer r)
new_peer-IsGuarded r = record { flagged = refl; bounded = omega arith }

-- The frame that Send queues, and whether it was queued.
abbrev pub queues : WsPeer → Bool
queues p = if p.closed then false else ltb (length p.channel.buffer) send_buffer

abbrev pub sent : WsPeer → Frame → WsPeer
sent p frame =
    if queues p
    then record p { channel = record p.channel { buffer = p.channel.buffer ++ frame ∷ [] } }
    else p

-- Send never panics on a guarded peer: it queues the frame at the end, or drops it.
pub send_lem :
    (p : WsPeer) (frame : Frame) → IsGuarded p → send p frame ≡ done (sent p frame, queues p)
unfolding send
send_lem p frame g = ground arith

-- While the channel is open and has room, the frame is put at the end of the queue.
pub sent_queues :
    (p : WsPeer) (frame : Frame)
    → p.closed ≡ false
    → length p.channel.buffer < 32
    → sent p frame
      ≡ record p { channel = record p.channel { buffer = p.channel.buffer ++ frame ∷ [] } }
sent_queues p frame unclosed room_left = ground (arith, unclosed, room_left)

pub sent-IsGuarded : (p : WsPeer) (frame : Frame) → IsGuarded p → IsGuarded (sent p frame)
sent-IsGuarded p frame g = ground (arith, length-append p.channel.buffer (frame ∷ []))

abbrev pub shut_down : WsPeer → WsPeer
shut_down p = record p { closed = true; channel = record p.channel { shut = true } }

pub close_send_lem : (p : WsPeer) → IsGuarded p → close_send p ≡ done (shut_down p)
unfolding close_send
close_send_lem p g = ground arith

pub shut_down-IsGuarded : (p : WsPeer) → IsGuarded p → IsGuarded (shut_down p)
shut_down-IsGuarded p g = record { flagged = refl; bounded = g.bounded }

-- The calls that goroutines make on one peer, in the order in which they get its lock.
pub data Call : Type 0 where
  sends : Frame → Call
  closes : Call

unfoldable pub call : Call → WsPeer → Outcome WsPeer
unfolding send close_send
call (sends frame) p = send p frame >>= λ r. done r.0
call closes p = close_send p

unfoldable pub calls : List Call → WsPeer → Outcome WsPeer
unfolding call
calls [] p = done p
calls (c ∷ cs) p = call c p >>= calls cs

pub call-IsGuarded :
    (c : Call) (p : WsPeer) → IsGuarded p → (q : WsPeer) × (call c p ≡ done q) × IsGuarded q
unfolding call
call-IsGuarded (sends frame) p g = (sent p frame, rw (send_lem p frame g), sent-IsGuarded p frame g)
call-IsGuarded closes p g = (shut_down p, close_send_lem p g, shut_down-IsGuarded p g)

-- No order of sends and closes, from any number of goroutines, panics on a guarded peer, and the peer
-- stays guarded.
pub calls_no_panic :
    (cs : List Call) (p : WsPeer) → IsGuarded p → (q : WsPeer) × (calls cs p ≡ done q) × IsGuarded q
unfolding calls
calls_no_panic [] p g = (p, refl, g)
calls_no_panic (c ∷ cs) p g =
    let (q, e, g') = call-IsGuarded c p g in
    let (r, e', g'') = calls_no_panic cs q g' in (r, rw (e, calls) e', g'')

abbrev pub emptied : WsPeer → WsPeer
emptied p = record p { channel = record p.channel { buffer = [] } }

-- The wakes that receive from the channel; the others are ticks of the ping timer.
abbrev pub receives : List (Wake × Bool) → ℕ
receives [] = 0
receives ((received, success) ∷ events) = 1 + receives events
receives ((ticked, success) ∷ events) = receives events

abbrev pub without_pings : List Wire → List Wire
without_pings [] = []
without_pings (text frame ∷ out) = text frame ∷ without_pings out
without_pings (closing ∷ out) = closing ∷ without_pings out
without_pings (ping ∷ out) = without_pings out

-- What the loop leaves when it has written everything.
abbrev pub Drains : List (Wake × Bool) → WsPeer → Type 0
Drains events p =
    (out : List Wire) × (write_pump events p ≡ (emptied p, out, true))
    × (without_pings out ≡ map text p.channel.buffer ++ closing ∷ [])

drain_lem :
    (events : List (Wake × Bool)) (p : WsPeer) (fs : List Frame)
    → p.channel.buffer ≡ fs
    → p.channel.shut ≡ true
    → All (λ (e : Wake × Bool). e.1 ≡ true) events
    → length fs < receives events
    → Drains events p
unfolding write_pump write_round
drain_lem [] p fs b s good few = absurd (omega (arith, few))
drain_lem ((received, success) ∷ events) p [] b s (w, good) few =
    (closing ∷ [], ground (arith, w, b, s), rw (b) refl)
drain_lem ((received, success) ∷ events) p (f ∷ fs) b s (w, good) few =
    let q = record p { channel = record p.channel { buffer = fs } } in
    let (out, e, written) = drain_lem events q fs refl s good (omega (arith, few)) in
    (text f ∷ out, ground (arith, w, b, s, e), rw (b, written) refl)
drain_lem ((ticked, success) ∷ events) p fs b s (w, good) few =
    let (out, e, written) = drain_lem events p fs b s good few in
    (ping ∷ out, ground (arith, w, e), written)

-- If every write succeeds, in whatever order the frames and the pings of the timer come, writePump
-- returns once its select has chosen the channel more often than there are frames queued: whatever a
-- guarded peer had queued before closeSend has then reached the socket in the order in which it was
-- queued, then the close message, with only pings in between, and the buffer is empty.
pub write_pump-Drains :
    (events : List (Wake × Bool)) (p : WsPeer)
    → IsGuarded p
    → All (λ (e : Wake × Bool). e.1 ≡ true) events
    → length p.channel.buffer < receives events
    → Drains events (shut_down p)
write_pump-Drains events p g good enough =
    drain_lem events (shut_down p) p.channel.buffer refl refl good enough
