-- ===== src/Examples/Fanouts.antt =====
-- A run of instances that share Redis, with messages as texts.
use ar_app.Base.{
  ◌≡◌, refl, Option, none, some, List, [], ◌∷◌, map, String, ◌==◌, string_eq, if◌then◌else◌,
}
use ar_app.Signaling.Role.{Role, agent, phone, role_text}
use ar_app.Signaling.Hub.{Hub}
use ar_app.Signaling.Presence.Counting.{local_presence}
use ar_app.Signaling.RedisFanout.{FanoutMessage, Codec}
use ar_app.Signaling.RedisFanout.Delivery.{idle, settle, publish_all, all_deliver, fanout_delivers}
use ar_app.Examples.Codec.{write, read, read-write}
use ar_app.Examples.Rooms.{print, paired, start}

unfoldable encode : FanoutMessage → String
encode m = write m.room (write (role_text m.target_role) (write m.frame ""))

abbrev role_of : String → Role
role_of s = if s == "agent" then agent else phone

role_of-role_text : (r : Role) → role_of (role_text r) ≡ r
role_of-role_text agent = refl
role_of-role_text phone = refl

abbrev third : String → String → Option (String × String) → Option FanoutMessage
third room role none = none
third room role (some (frame, rest)) =
    some (record { room = room; target_role = role_of role; frame = frame })

abbrev second : String → Option (String × String) → Option FanoutMessage
second room none = none
second room (some (role, rest)) = third room role (read rest)

abbrev first : Option (String × String) → Option FanoutMessage
first none = none
first (some (room, rest)) = second room (read rest)

unfoldable decode : String → Option FanoutMessage
decode text = first (read text)

decode-encode : (m : FanoutMessage) → decode (encode m) ≡ some m
unfolding decode encode
decode-encode m = rw (
  read-write m.room _,
  read-write (role_text m.target_role) _,
  read-write m.frame "",
  role_of-role_text m.target_role,
)

abbrev codec : Codec
codec = record { encode = encode; decode = decode; decode-encode = decode-encode }

-- The agent and the phone are at the second instance.
abbrev hubs : List (Hub print local_presence)
hubs = start.hub ∷ paired.hub ∷ []

abbrev frames : List FanoutMessage
frames =
    record { room = "r"; target_role = agent; frame = "offer:phone" }
    ∷ record { room = "r"; target_role = phone; frame = "answer:agent" }
    ∷ []

fanout_delivers_example :
    settle print local_presence codec
      (publish_all print local_presence codec frames (map (idle print local_presence codec) hubs))
    ≡ all_deliver print local_presence codec frames hubs
fanout_delivers_example = fanout_delivers print local_presence codec frames hubs
