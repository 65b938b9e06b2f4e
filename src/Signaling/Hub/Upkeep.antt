-- ===== src/Signaling/Hub/Upkeep.antt =====
-- That registrations, removals and changes of the store keep the hub's invariant.
use ar_app.Base.{◌≡◌, refl, inl, inr, ◌&&◌, none, some, String, ◌==◌, string_eq, arith, Bool-cases}
use ar_app.Base.Map.{lookup, insert, lookup-insert}
use ar_app.Signaling.Role.{Role, role_eq, role_beq_iff}
use ar_app.Signaling.Channel.{Frame, WsPeer, new_peer}
use ar_app.Signaling.Channel.Delivery.{new_peer-IsGuarded, shut_down, shut_down-IsGuarded}
use ar_app.Signaling.Presence.{Presence}
use ar_app.Signaling.Hub.{Envelope, PeerId, Hub, occupant, register, unregister}
use ar_app.Signaling.Hub.Routing.{occupant-register, occupant-unregister, text_same}
use ar_app.Signaling.Hub.Invariant.{IsStored, IsValid, IsStored-insert}

module _ (marshal : Envelope → Frame) (P : Presence) where
  register_known :
      (h : Hub marshal P) (room : String) (id : PeerId) (role : Role)
      → IsValid marshal P h
      → IsStored h.peers id role
      → (other : String) (r : Role) (x : PeerId)
      → occupant marshal P (register marshal P h room id role) other r ≡ some x
      → IsStored h.peers x r
  register_known h room id role v (p, l, f) other r x o =
      elim (Bool-cases (room == other && role == r)) [
        | inl e ↦ (
          p,
          ground (arith, occupant-register marshal P h room other id role r, l),
          ground (arith, role_beq_iff role r),
        )
        | inr e ↦
            v.known other r x (ground (arith, occupant-register marshal P h room other id role r))
      ]

  pub register-IsValid :
      (h : Hub marshal P) (room : String) (id : PeerId) (role : Role)
      → IsValid marshal P h
      → IsStored h.peers id role
      → IsValid marshal P (register marshal P h room id role)
  unfolding register
  register-IsValid h room id role v s = record {
    known = register_known h room id role v s;
    guarded = v.guarded;
    counted = v.counted;
  }

  unregister_known :
      (h : Hub marshal P) (room : String) (id : PeerId) (role : Role)
      → IsValid marshal P h
      → (other : String) (r : Role) (x : PeerId)
      → occupant marshal P (unregister marshal P h room id role) other r ≡ some x
      → occupant marshal P h other r ≡ some x
  unregister_known h room id role v other r x o =
      ground (arith, occupant-unregister marshal P h room other id role r)

  -- The removal of Leave touches the rooms alone.
  pub peers-unregister :
      (h : Hub marshal P) (room : String) (id : PeerId) (role : Role)
      → (unregister marshal P h room id role).peers ≡ h.peers
  unfolding unregister
  peers-unregister h room id role = ground arith

  pub presence-unregister :
      (h : Hub marshal P) (room : String) (id : PeerId) (role : Role)
      → (unregister marshal P h room id role).presence ≡ h.presence
  unfolding unregister
  presence-unregister h room id role = ground arith

  pub unregister-IsValid :
      (h : Hub marshal P) (room : String) (id : PeerId) (role : Role)
      → IsValid marshal P h
      → IsValid marshal P (unregister marshal P h room id role)
  unregister-IsValid h room id role v = record {
    known = λ other r x o.
        rw (peers-unregister h room id role)
          (v.known other r x (unregister_known h room id role v other r x o));
    guarded = λ x p l. v.guarded x p (rw (peers-unregister h room id role) at l);
    counted = rw (presence-unregister h room id role) v.counted;
  }

  pub with_presence-IsValid :
      (h : Hub marshal P) (s : P.State)
      → IsValid marshal P h
      → P.valid s
      → IsValid marshal P (record h { presence = s })
  with_presence-IsValid h s v c = record { known = v.known; guarded = v.guarded; counted = c }

  -- A peer is added to the store by ServeWS, under a fresh id.
  pub with_peer-IsValid :
      (h : Hub marshal P) (id : PeerId) (role : Role)
      → IsValid marshal P h
      → lookup id h.peers ≡ none
      → IsValid marshal P (record h { peers = insert id (new_peer role) h.peers })
  with_peer-IsValid h id role v fresh = record {
    known = λ room r x o.
        let (p, l, f) = v.known room r x o in
        (p, ground (arith, lookup-insert id x (new_peer role) h.peers, text_same id x), f);
    guarded = λ x p l.
        ground (
          arith,
          lookup-insert id x (new_peer role) h.peers,
          v.guarded x p,
          new_peer-IsGuarded role,
        );
    counted = v.counted;
  }

  -- closeSend on a peer of the store.
  pub closed-IsValid :
      (h : Hub marshal P) (id : PeerId) (p : WsPeer)
      → IsValid marshal P h
      → lookup id h.peers ≡ some p
      → IsValid marshal P (record h { peers = insert id (shut_down p) h.peers })
  closed-IsValid h id p v e = record {
    known = λ room r x o.
        IsStored-insert marshal P h.peers id x p (shut_down p) r e refl (v.known room r x o);
    guarded = λ x q l. ground (
      arith,
      lookup-insert id x (shut_down p) h.peers,
      v.guarded x q,
      shut_down-IsGuarded p (v.guarded id p e),
    );
    counted = v.counted;
  }
