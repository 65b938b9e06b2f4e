-- ===== src/Signaling/Channel.antt =====
-- backend/internal/signaling/handlers.go: a peer's outgoing channel, Send and closeSend under its
-- lock, and writePump. A frame is its bytes.
pub mod Delivery
use ar_app.Base.{ℕ, suc, Bool, true, false, List, [], ◌∷◌, ◌++◌, String, ltb, length, if◌then◌else◌}
use ar_app.Signaling.Role.{Role}

abbrev pub Frame : Type 0
Frame = String

-- A panic of Go: a send on a closed channel, a second close, a nil pointer.
pub data Outcome (A : Type 0) : Type 0 where
  done : A → Outcome A
  panic : Outcome A

infixl 5 ◌>>=◌
abbrev pub ◌>>=◌ : {A B : Type 0} → Outcome A → (A → Outcome B) → Outcome B
done a >>= k = k a
panic >>= k = panic

abbrev pub send_buffer : ℕ
send_buffer = 32

pub record Channel : Type 0 where
  pub buffer : List Frame
  pub shut : Bool

-- `select { case c <- frame: return true; default: return false }`
unfoldable pub try_send : Channel → Frame → Outcome (Channel × Bool)
try_send c frame =
    if c.shut
    then panic
    else if ltb (length c.buffer) send_buffer
    then done (record c { buffer = c.buffer ++ frame ∷ [] }, true)
    else done (c, false)

-- `close(c)`
unfoldable pub close_channel : Channel → Outcome Channel
close_channel c = if c.shut then panic else done (record c { shut = true })

pub record WsPeer : Type 0 where
  pub role : Role
  pub channel : Channel
  pub closed : Bool

-- The peer that ServeWS makes.
abbrev pub new_peer : Role → WsPeer
new_peer role = record {
  role = role;
  channel = record { buffer = []; shut = false };
  closed = false;
}

unfoldable pub send : WsPeer → Frame → Outcome (WsPeer × Bool)
unfolding try_send
send p frame =
    if p.closed
    then done (p, false)
    else try_send p.channel frame >>= λ r. done (record p { channel = r.0 }, r.1)

unfoldable pub close_send : WsPeer → Outcome WsPeer
unfolding close_channel
close_send p =
    if p.closed
    then done p
    else close_channel p.channel >>= λ c. done (record p { closed = true; channel = c })

-- What writePump puts on the socket.
pub data Wire : Type 0 where
  text : Frame → Wire
  closing : Wire
  ping : Wire

-- The case of the select that fires.
pub data Wake : Type 0 where
  received ticked : Wake

-- One round of the loop: a receive from an open, empty channel blocks; else the peer after it, what
-- is written, and whether the loop goes on when the write succeeds.
pub data Round : Type 0 where
  blocks : Round
  writes : WsPeer → Wire → Bool → Round

abbrev receive_round : WsPeer → List Frame → Bool → Round
receive_round p (frame ∷ rest) shut =
    writes (record p { channel = record { buffer = rest; shut = shut } }) (text frame) true
receive_round p [] true = writes p closing false
receive_round p [] false = blocks

unfoldable pub write_round : WsPeer → Wake → Round
write_round p received = receive_round p p.channel.buffer p.channel.shut
write_round p ticked = writes p ping true

-- writePump over the wakes of its select, each with the success of the write. The result holds the
-- peer, what reached the socket, and whether the loop has returned.
unfoldable pub write_pump : List (Wake × Bool) → WsPeer → WsPeer × List Wire × Bool
unfolding write_round
write_pump [] p = (p, [], false)
write_pump ((wake, success) ∷ events) p = elim (write_round p wake) [
  | blocks ↦ write_pump events p
  | writes q out goes_on ↦
      if success
      then (let later = write_pump events q in
          if goes_on then (later.0, out ∷ later.1, later.2) else (q, out ∷ [], true))
      else (q, [], true)
]
