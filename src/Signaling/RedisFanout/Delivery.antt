-- ===== src/Signaling/RedisFanout/Delivery.antt =====
-- What the instances deliver.
use ar_app.Base.{
  ◌≡◌, refl, sym, ◌∙◌, ap, true, Option, none, some, List, [], ◌∷◌, ◌++◌, map, String,
}
use mathlib.Core.List.{append-nil, append_assoc}
use ar_app.Signaling.Channel.{Frame, Outcome, done, panic, ◌>>=◌}
use ar_app.Signaling.Presence.{Presence}
use ar_app.Signaling.Hub.{Envelope, Hub, deliver_local}
use ar_app.Signaling.Hub.Invariant.{
  IsValid, OnlySends-refl, Succeeds, Succeeds->>=, deliver_local-Succeeds,
}
use ar_app.Signaling.RedisFanout.{
  FanoutMessage, Codec, Instance, posted, redis_publish, deliver_decoded, receive_message,
  receive_messages,
}

module _ (marshal : Envelope → Frame) (P : Presence) (C : Codec) where
  -- The frames one after the other, to the local peers.
  abbrev pub deliver_all : List FanoutMessage → Hub marshal P → Outcome (Hub marshal P)
  deliver_all [] h = done h
  deliver_all (m ∷ rest) h =
      deliver_local marshal P h m.room m.target_role m.frame >>= deliver_all rest

  abbrev pub idle : Hub marshal P → Instance marshal P C
  idle h = record { hub = h; inbox = [] }

  -- The messages published one after the other, by any instances.
  abbrev pub publish_all :
      List FanoutMessage → List (Instance marshal P C) → List (Instance marshal P C)
  publish_all [] cluster = cluster
  publish_all (m ∷ rest) cluster =
      publish_all rest (redis_publish marshal P C true m.room m.target_role m.frame cluster)

  -- Each instance receives what waits for it.
  abbrev pub settle : List (Instance marshal P C) → List (Outcome (Hub marshal P))
  settle [] = []
  settle (n ∷ rest) = receive_messages marshal P C n.inbox n.hub ∷ settle rest

  abbrev pub all_deliver :
      List FanoutMessage → List (Hub marshal P) → List (Outcome (Hub marshal P))
  all_deliver ms [] = []
  all_deliver ms (h ∷ rest) = deliver_all ms h ∷ all_deliver ms rest

  encoded : List FanoutMessage → List String
  encoded [] = []
  encoded (m ∷ rest) = C.encode m ∷ encoded rest

  -- A cluster in which the same messages wait at each instance.
  waiting : List String → List (Hub marshal P) → List (Instance marshal P C)
  waiting inbox [] = []
  waiting inbox (h ∷ rest) = record { hub = h; inbox = inbox } ∷ waiting inbox rest

  post_waiting :
      (payload : String) (inbox : List String) (hubs : List (Hub marshal P))
      → posted marshal P C payload (waiting inbox hubs) ≡ waiting (inbox ++ payload ∷ []) hubs
  unfolding waiting
  post_waiting payload inbox [] = refl
  post_waiting payload inbox (h ∷ rest) = cc (post_waiting payload inbox rest)

  publish_waiting :
      (ms : List FanoutMessage) (inbox : List String) (hubs : List (Hub marshal P))
      → publish_all ms (waiting inbox hubs) ≡ waiting (inbox ++ encoded ms) hubs
  unfolding redis_publish encoded
  publish_waiting [] inbox hubs = ap (λ x. waiting x hubs) (sym (append-nil inbox))
  publish_waiting (m ∷ rest) inbox hubs =
      ap (publish_all rest) (post_waiting (C.encode m) inbox hubs)
      ∙ publish_waiting rest (inbox ++ C.encode m ∷ []) hubs
      ∙ ap (λ x. waiting x hubs) (append_assoc inbox (C.encode m ∷ []) (encoded rest))

  >>=-same :
      (r : Outcome (Hub marshal P)) (f g : Hub marshal P → Outcome (Hub marshal P))
      → ((h : Hub marshal P) → f h ≡ g h)
      → (r >>= f) ≡ (r >>= g)
  >>=-same (done h) f g e = e h
  >>=-same panic f g e = refl

  receive_encoded :
      (ms : List FanoutMessage) (h : Hub marshal P)
      → receive_messages marshal P C (encoded ms) h ≡ deliver_all ms h
  unfolding receive_messages receive_message encoded
  receive_encoded [] h = refl
  receive_encoded (m ∷ rest) h =
      rw (C.decode-encode m) (
        >>=-same (deliver_local marshal P h m.room m.target_role m.frame) _ _
          (receive_encoded rest))

  settle-waiting :
      (ms : List FanoutMessage) (hubs : List (Hub marshal P))
      → settle (waiting (encoded ms) hubs) ≡ all_deliver ms hubs
  unfolding waiting
  settle-waiting ms [] = refl
  settle-waiting ms (h ∷ rest) = cc (receive_encoded ms h, settle-waiting ms rest)

  deliver_all-Succeeds :
      (ms : List FanoutMessage) (h : Hub marshal P)
      → IsValid marshal P h
      → Succeeds marshal P h (deliver_all ms h)
  deliver_all-Succeeds [] h v = (h, refl, v, OnlySends-refl marshal P h)
  deliver_all-Succeeds (m ∷ rest) h v =
      Succeeds->>= marshal P h _ _
        (deliver_local-Succeeds marshal P h m.room m.target_role m.frame v)
        (deliver_all-Succeeds rest)

  idle-waiting : (hubs : List (Hub marshal P)) → map idle hubs ≡ waiting [] hubs
  unfolding waiting
  idle-waiting [] = refl
  idle-waiting (h ∷ rest) = cc (idle-waiting rest)

  -- Frames that any instances publish one after the other reach the peers of every instance as if each
  -- instance had delivered them itself, in the order of their publication, once it has received what
  -- waits for it.
  pub fanout_delivers :
      (ms : List FanoutMessage) (hubs : List (Hub marshal P))
      → settle (publish_all ms (map idle hubs)) ≡ all_deliver ms hubs
  unfolding encoded
  fanout_delivers ms hubs =
      ap (λ c. settle (publish_all ms c)) (idle-waiting hubs)
      ∙ ap settle (publish_waiting ms [] hubs)
      ∙ settle-waiting ms hubs

  decoded-Succeeds :
      (m : Option FanoutMessage) (h : Hub marshal P)
      → IsValid marshal P h
      → Succeeds marshal P h (deliver_decoded marshal P C m h)
  decoded-Succeeds none h v = (h, refl, v, OnlySends-refl marshal P h)
  decoded-Succeeds (some m) h v = deliver_local-Succeeds marshal P h m.room m.target_role m.frame v

  -- Whatever waits for an instance with a valid hub, payloads that do not decode among it, its loop returns
  -- from all of it without a panic, and has only sent to peers: rooms and presence are as before.
  pub receive-Succeeds :
      (payloads : List String) (h : Hub marshal P)
      → IsValid marshal P h
      → Succeeds marshal P h (receive_messages marshal P C payloads h)
  unfolding receive_messages receive_message
  receive-Succeeds [] h v = (h, refl, v, OnlySends-refl marshal P h)
  receive-Succeeds (payload ∷ rest) h v =
      Succeeds->>= marshal P h _ _ (decoded-Succeeds (C.decode payload) h v) (receive-Succeeds rest)
