-- ===== src/Signaling/Hub/Pairing.antt =====
-- When the two sides of a room learn that both are there.
use ar_app.Base.{
  none, false, ap, length, ◌++◌, ◌≡◌, ◌≢◌, refl, true, ◌∙◌, some, [], ◌∷◌, String, string_eq, ◌<◌,
  arith, lt→ltb,
}
use ar_app.Base.Map.{lookup, insert, lookup-insert}
use ar_app.Signaling.Role.{Role, agent, phone, opposite, role_beq}
use ar_app.Signaling.Channel.{Frame, done, WsPeer}
use ar_app.Signaling.Channel.Delivery.{IsGuarded, sent, sent_queues}
use ar_app.Signaling.Presence.{Presence}
use ar_app.Signaling.Hub.{Envelope, PeerId, Hub, occupant, ready, register, notify, announce, join}
use ar_app.Signaling.Hub.Routing.{
  send_to_lem, deliver_local-some, after_send, text_same, occupant-register,
}
use ar_app.Signaling.Hub.Invariant.{IsValid}

module _ (marshal : Envelope → Frame) (P : Presence) where
  -- The hub of Join when nobody is told anything.
  abbrev pub joined : Hub marshal P → String → PeerId → Role → Hub marshal P
  joined h room id role = record (register marshal P h room id role) {
    presence = (P.join h.presence room role).0;
  }

  presence-register :
      (h : Hub marshal P) (room : String) (id : PeerId) (role : Role)
      → (register marshal P h room id role).presence ≡ h.presence
  unfolding register
  presence-register h room id role = refl

  -- A peer that joins while the presence counts nobody in the opposite role is registered and
  -- counted, and no frame is sent.
  pub join_waits :
      (h : Hub marshal P) (room : String) (id : PeerId) (role : Role)
      → P.count h.presence room (opposite role) ≡ 0
      → join marshal P h room id role ≡ done (joined h room id role)
  unfolding join announce notify register
  join_waits h room id role e = rw (P.join_others h.presence room role, e)

  opposite_beq : (role : Role) → role_beq (opposite role) (opposite role) ≡ true
  opposite_beq agent = refl
  opposite_beq phone = refl

  occupant-joined :
      (h : Hub marshal P) (room : String) (id : PeerId) (role : Role)
      → occupant marshal P (joined h room id role) room (opposite role)
        ≡ occupant marshal P h room (opposite role)
  occupant-joined h room id agent =
      ground (arith, occupant-register marshal P h room room id agent phone)
  occupant-joined h room id phone =
      ground (arith, occupant-register marshal P h room room id phone agent)

  peers-joined :
      (h : Hub marshal P) (room : String) (id : PeerId) (role : Role)
      → (joined h room id role).peers ≡ h.peers
  unfolding register
  peers-joined h room id role = refl

  -- The two sends of Join, once the other role is known to be there.
  both_told :
      (h : Hub marshal P) (room : String) (id other : PeerId) (role : Role) (p q : WsPeer)
      → occupant marshal P h room (opposite role) ≡ some other
      → id ≢ other
      → lookup id h.peers ≡ some p
      → lookup other h.peers ≡ some q
      → IsGuarded p
      → IsGuarded q
      → notify marshal P h room id role (opposite role ∷ [])
        ≡ done (record h {
          peers =
              insert other
                (sent q (ready marshal P))
                (insert id (sent p (ready marshal P)) h.peers);
        })
  unfolding notify
  both_told h room id other role p q o ne lp lq gp gq =
      rw (opposite_beq role, send_to_lem marshal P h id p (ready marshal P) lp gp)
        (deliver_local-some marshal P (after_send marshal P h id p (ready marshal P)) room
          (opposite role) (ready marshal P) other q o
          (ground
            (arith, lookup-insert id other (sent p (ready marshal P)) h.peers, text_same id other))
          gq)

  -- Whether the queues have room or not.
  join_sends :
      (h : Hub marshal P) (room : String) (id other : PeerId) (role : Role) (p q : WsPeer)
      → IsValid marshal P h
      → 0 < P.count h.presence room (opposite role)
      → occupant marshal P h room (opposite role) ≡ some other
      → id ≢ other
      → lookup id h.peers ≡ some p
      → lookup other h.peers ≡ some q
      → join marshal P h room id role
        ≡ done (record (joined h room id role) {
          peers =
              insert other
                (sent q (ready marshal P))
                (insert id (sent p (ready marshal P)) h.peers);
        })
  unfolding join announce register
  join_sends h room id other role p q v n o ne lp lq =
      rw (P.join_others h.presence room role, lt→ltb _ _ n)
        (both_told (joined h room id role) room id other role p q
          (occupant-joined h room id role ∙ o) ne lp lq (v.guarded id p lp) (v.guarded other q lq))

  -- A peer with `peer-ready` at the end of its queue.
  abbrev pub told : WsPeer → WsPeer
  told p = record p {
    channel = record p.channel {
      buffer =
          p.channel.buffer
          ++ marshal (record { kind = "peer-ready"; sender = ""; payload = none }) ∷ [];
    };
  }

  -- A peer that joins a valid hub while the presence counts the opposite role, and that role's place
  -- is taken by another peer, both channels being open with fewer than 32 frames waiting, is registered and
  -- counted, and `peer-ready` is queued for both. No other peer gets a frame. No
  -- other connection acts in between.
  pub join_ready :
      (h : Hub marshal P) (room : String) (id other : PeerId) (role : Role) (p q : WsPeer)
      → IsValid marshal P h
      → 0 < P.count h.presence room (opposite role)
      → occupant marshal P h room (opposite role) ≡ some other
      → id ≢ other
      → lookup id h.peers ≡ some p
      → lookup other h.peers ≡ some q
      → p.closed ≡ false
      → q.closed ≡ false
      → length p.channel.buffer < 32
      → length q.channel.buffer < 32
      → join marshal P h room id role
        ≡ done (record (joined h room id role) {
          peers = insert other (told q) (insert id (told p) h.peers);
        })
  join_ready h room id other role p q v n o ne lp lq op oq rp rq =
      join_sends h room id other role p q v n o ne lp lq
      ∙ ap
          (λ (x : WsPeer × WsPeer).
            done
              (record (joined h room id role) { peers = insert other x.0 (insert id x.1 h.peers) }))
          (ap (λ (x : WsPeer). (x, sent p (ready marshal P)))
              (sent_queues q (ready marshal P) oq rq)
            ∙ ap (λ (x : WsPeer). (told q, x)) (sent_queues p (ready marshal P) op rp))
