-- ===== src/Signaling/Hub/Invariant.antt =====
-- The hub's invariant, and that sends and room changes keep it.
use ar_app.Base.{
  ◌≡◌, refl, inl, inr, some, String, ◌∙◌, ◌==◌, string_eq, arith, Option-cases, Bool-cases,
}
use ar_app.Base.Map.{Map, lookup, insert, lookup-insert}
use ar_app.Signaling.Role.{Role, role_eq}
use ar_app.Signaling.Channel.{Frame, Outcome, done, ◌>>=◌, WsPeer}
use ar_app.Signaling.Channel.Delivery.{IsGuarded, sent, sent-IsGuarded}
use ar_app.Signaling.Presence.{Presence}
use ar_app.Signaling.Hub.{Envelope, PeerId, Hub, send_to, occupant, deliver_local}
use ar_app.Signaling.Hub.Routing.{after_send, send_to_lem, text_same}

-- A peer of a given role is in the store.
abbrev pub IsStored : Map PeerId WsPeer → PeerId → Role → Type 0
IsStored peers id role = (p : WsPeer) × (lookup id peers ≡ some p) × (p.role ≡ role)

module _ (marshal : Envelope → Frame) (P : Presence) where
  -- Every occupant is a stored peer of the role whose place it takes, every stored peer is guarded,
  -- and the presence is in a valid state.
  pub record IsValid (h : Hub marshal P) : Type 0 where
    pub known :
        (room : String) (role : Role) (id : PeerId)
        → occupant marshal P h room role ≡ some id
        → IsStored h.peers id role
    pub guarded : (id : PeerId) (p : WsPeer) → lookup id h.peers ≡ some p → IsGuarded p
    pub counted : P.valid h.presence

  -- What a run of sends leaves alone.
  pub record OnlySends (h h' : Hub marshal P) : Type 0 where
    pub rooms : h'.rooms ≡ h.rooms
    pub presence : h'.presence ≡ h.presence
    pub listening : h'.listening ≡ h.listening
    pub ended : h'.ended ≡ h.ended
    pub stored : (id : PeerId) (role : Role) → IsStored h.peers id role → IsStored h'.peers id role

  -- The call returns a valid hub, and has only sent.
  abbrev pub Succeeds : Hub marshal P → Outcome (Hub marshal P) → Type 0
  Succeeds h r = (h' : Hub marshal P) × (r ≡ done h') × IsValid h' × OnlySends h h'

  pub OnlySends-refl : (h : Hub marshal P) → OnlySends h h
  OnlySends-refl h = record {
    rooms = refl;
    presence = refl;
    listening = refl;
    ended = refl;
    stored = λ id role s. s;
  }

  pub OnlySends-trans : (a b c : Hub marshal P) → OnlySends a b → OnlySends b c → OnlySends a c
  OnlySends-trans a b c x y = record {
    rooms = y.rooms ∙ x.rooms;
    presence = y.presence ∙ x.presence;
    listening = y.listening ∙ x.listening;
    ended = y.ended ∙ x.ended;
    stored = λ id role s. y.stored id role (x.stored id role s);
  }

  -- A write to the store that keeps the role of the entry.
  pub IsStored-insert :
      (peers : Map PeerId WsPeer) (id other : PeerId) (p q : WsPeer) (role : Role)
      → lookup id peers ≡ some p
      → q.role ≡ p.role
      → IsStored peers other role
      → IsStored (insert id q peers) other role
  IsStored-insert peers id other p q role e same (r, e', f) = elim (Bool-cases (id == other)) [
    | inl h ↦
        (q, ground (arith, lookup-insert id other q peers), ground (arith, text_same id other))
    | inr h ↦ (r, ground (arith, lookup-insert id other q peers), f)
  ]

  sent-role : (p : WsPeer) (frame : Frame) → (sent p frame).role ≡ p.role
  sent-role p frame = ground arith

  after_send-IsValid :
      (h : Hub marshal P) (id : PeerId) (p : WsPeer) (frame : Frame)
      → IsValid h
      → lookup id h.peers ≡ some p
      → IsValid (after_send marshal P h id p frame)
  after_send-IsValid h id p frame v e = record {
    known = λ room role other o.
        IsStored-insert h.peers id other p (sent p frame) role e (sent-role p frame)
          (v.known room role other o);
    guarded = λ other q l. ground (
      arith,
      lookup-insert id other (sent p frame) h.peers,
      v.guarded other q,
      sent-IsGuarded p frame (v.guarded id p e),
    );
    counted = v.counted;
  }

  pub send_to-Succeeds :
      (h : Hub marshal P) (id : PeerId) (frame : Frame) (role : Role)
      → IsValid h
      → IsStored h.peers id role
      → Succeeds h (send_to marshal P h id frame)
  send_to-Succeeds h id frame role v (p, e, f) = (
    after_send marshal P h id p frame,
    send_to_lem marshal P h id p frame e (v.guarded id p e),
    after_send-IsValid h id p frame v e,
    record {
      rooms = refl;
      presence = refl;
      listening = refl;
      ended = refl;
      stored = λ other r s. IsStored-insert h.peers id other p _ r e (sent-role p frame) s;
    },
  )

  pub deliver_local-Succeeds :
      (h : Hub marshal P) (room : String) (target : Role) (frame : Frame)
      → IsValid h
      → Succeeds h (deliver_local marshal P h room target frame)
  unfolding deliver_local
  deliver_local-Succeeds h room target frame v =
      elim (Option-cases (occupant marshal P h room target)) [
        | inl e ↦ (h, rw (e, deliver_local), v, OnlySends-refl h)
        | inr (id, e) ↦
            rw (e, deliver_local) (send_to-Succeeds h id frame target v (v.known room target id e))
      ]

  pub Succeeds->>= :
      (h : Hub marshal P) (r : Outcome (Hub marshal P))
      (k : Hub marshal P → Outcome (Hub marshal P))
      → Succeeds h r
      → ((h' : Hub marshal P) → IsValid h' → Succeeds h' (k h'))
      → Succeeds h (r >>= k)
  Succeeds->>= h r k (h', e, v, s) next =
      let (h'', e', v', s') = next h' v in (h'', rw e e', v', OnlySends-trans h h' h'' s s')
