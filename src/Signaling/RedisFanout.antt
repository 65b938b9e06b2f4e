-- ===== src/Signaling/RedisFanout.antt =====
-- backend/internal/signaling/redis.go: RedisFanout. Each instance of the backend has a hub and a
-- subscription, whose messages wait in order; encoding/json on a message is an interface.
pub mod Delivery
use ar_app.Base.{Bool, true, false, Option, none, some, List, [], ◌∷◌, ◌++◌, ◌≡◌, map, String}
use ar_app.Signaling.Role.{Role, opposite}
use ar_app.Signaling.Channel.{Frame, Outcome, done, panic, ◌>>=◌}
use ar_app.Signaling.Presence.{Presence}
use ar_app.Signaling.Hub.{Envelope, Hub, deliver_local}

pub record FanoutMessage : Type 0 where
  pub room : String
  pub target_role : Role
  pub frame : Frame

-- A role that is not one of the two has no peers, so its message is as good as none.
pub record Codec : Type 0 where
  pub encode : FanoutMessage → String
  pub decode : String → Option FanoutMessage
  pub decode-encode : (m : FanoutMessage) → decode (encode m) ≡ some m

module _ (marshal : Envelope → Frame) (P : Presence) (C : Codec) where
  pub record Instance : Type 0 where
    pub hub : Hub marshal P
    pub inbox : List String

  -- What Redis does with a PUBLISH: each subscription gets the payload after those before it.
  abbrev pub post : String → Instance → Instance
  post payload n = record n { inbox = n.inbox ++ payload ∷ [] }

  abbrev pub posted : String → List Instance → List Instance
  posted payload [] = []
  posted payload (n ∷ rest) = post payload n ∷ posted payload rest

  -- Publish, and whether the command reaches Redis; its error is only logged.
  unfoldable pub redis_publish : Bool → String → Role → Frame → List Instance → List Instance
  redis_publish false room target frame cluster = cluster
  redis_publish true room target frame cluster =
      posted (C.encode (record { room = room; target_role = target; frame = frame })) cluster

  abbrev deliver_decoded : Option FanoutMessage → Hub marshal P → Outcome (Hub marshal P)
  deliver_decoded none h = done h
  deliver_decoded (some m) h = deliver_local marshal P h m.room m.target_role m.frame

  -- One message of the loop of Start.
  unfoldable pub receive_message : String → Hub marshal P → Outcome (Hub marshal P)
  receive_message payload h = deliver_decoded (C.decode payload) h

  -- The loop over the messages that wait.
  unfoldable pub receive_messages : List String → Hub marshal P → Outcome (Hub marshal P)
  receive_messages [] h = done h
  receive_messages (payload ∷ rest) h = receive_message payload h >>= receive_messages rest
