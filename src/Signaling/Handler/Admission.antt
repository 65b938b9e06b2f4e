-- ===== src/Signaling/Handler/Admission.antt =====
-- Who joins a room, and what an admitted peer can put on the other's socket.
use ar_app.Base.{
  false, ap, ◌∙◌, Bool-cases, subst, refl, ◌⊎◌, none, ◌==◌, length, ◌<◌, [], ◌∷◌, ◌++◌, ◌≡◌, ◌≢◌,
  Option-cases, ◌↔◌, Bool, true, Option, some, String, string_eq, arith, inl, inr,
}
use ar_app.Base.Map.{lookup, insert}
use ar_app.Signaling.Role.{Role, agent, phone, opposite, role_text}
use ar_app.Signaling.Channel.{Frame, done, WsPeer}
use ar_app.Signaling.Presence.{Presence}
use ar_app.Signaling.Channel.Delivery.{sent_queues}
use ar_app.Signaling.Hub.{Envelope, PeerId, Hub, occupant}
use ar_app.Signaling.Hub.Routing.{relay_lem, after_send, text_same}
use ar_app.Signaling.Hub.Invariant.{IsValid}
use ar_app.Signaling.Handler.{
  Request, admitted, Authorizer, parse_role, token_of, authorized, serve_ws, receive,
}

texts_differ : role_text agent ≢ role_text phone
texts_differ = ground (arith, text_same "agent" "phone")

parse_role_iff :
    (text : String) (role : Role) → (parse_role text ≡ some role) ↔ (text ≡ role_text role)
parse_role_iff text agent =
    ground (arith, text_same text "agent", text_same text "phone", texts_differ)
parse_role_iff text phone =
    ground (arith, text_same text "agent", text_same text "phone", texts_differ)

pub serve_ws-authorized_iff :
    (is_uuid : String → Bool) (auth : Option Authorizer) (upgrades : Bool) (r : Request)
    (room : String) (role : Role)
    → (serve_ws is_uuid auth upgrades r ≡ admitted room role) ↔ (
        (r.room ≡ room)
        × (is_uuid r.room ≡ true)
        × (r.role ≡ role_text role)
        × (authorized auth r.room role (token_of r) ≡ true)
        × (upgrades ≡ true))
unfolding serve_ws
serve_ws-authorized_iff is_uuid auth upgrades r room role =
    elim (Option-cases (parse_role r.role)) [
      | inl e ↦ rw (e, serve_ws) (ground (arith, parse_role_iff r.role role))
      | inr (found, e) ↦
          rw (e, serve_ws) (ground (arith, parse_role_iff r.role role, parse_role_iff r.role found))
    ]

-- The token that a request presents: that of the header, or that of the query if the header is empty.
abbrev pub Presents : Request → String → Type 0
Presents r token =
    ((r.header_token ≢ "") × (token ≡ r.header_token))
    ⊎ ((r.header_token ≡ "") × (token ≡ r.query_token))

-- There is no authorizer, or it accepts the token for the room and the role.
abbrev pub Accepts : Option Authorizer → String → Role → String → Type 0
Accepts auth room role token =
    (auth ≡ none) ⊎ ((a : Authorizer) × (auth ≡ some a) × (a room (role_text role) token ≡ true))

Accepts-iff :
    (auth : Option Authorizer) (room : String) (role : Role) (token : String)
    → (authorized auth room role token ≡ true) ↔ Accepts auth room role token
Accepts-iff none room role token = (λ h. inl refl, λ h. refl)
Accepts-iff (some a) room role token = (
  λ h. inr (a, refl, h),
  λ h. elim h [ inl e ↦ absurd (cc e) | inr (b, e, accepted) ↦ ground (arith, e, accepted) ],
)

Presents-own : (r : Request) → Presents r (token_of r)
Presents-own r = elim (Bool-cases (r.header_token == "")) [
  | inl blank ↦ inr ((text_same r.header_token "").0 blank, rw (blank) refl)
  | inr given ↦ inl (ground (arith, given, text_same r.header_token ""), rw (given) refl)
]

Presents-same : (r : Request) (token : String) → Presents r token → token ≡ token_of r
Presents-same r token (inl (given, e)) = ground (arith, given, e, text_same r.header_token "")
Presents-same r token (inr (blank, e)) = ground (arith, blank, e, text_same r.header_token "")

-- ServeWS admits a peer exactly when the room parses as a UUID, the role is one of the two role
-- texts, the authorizer, if there is one, accepts for that very room and role the token of the header, or
-- that of the query if the header is empty, and the upgrade succeeds; the peer then joins the room that it
-- named, in that role.
pub serve_ws-admitted_iff :
    (is_uuid : String → Bool) (auth : Option Authorizer) (upgrades : Bool) (r : Request)
    (room : String) (role : Role)
    → (serve_ws is_uuid auth upgrades r ≡ admitted room role) ↔ (
        (r.room ≡ room)
        × (is_uuid r.room ≡ true)
        × (r.role ≡ role_text role)
        × ((token : String) × Presents r token × Accepts auth r.room role token)
        × (upgrades ≡ true))
serve_ws-admitted_iff is_uuid auth upgrades r room role =
    let base = serve_ws-authorized_iff is_uuid auth upgrades r room role in
    (
      λ h.
          let (a, b, c, d, e) = base.0 h in
          (
            a,
            b,
            c,
            (token_of r, Presents-own r, (Accepts-iff auth r.room role (token_of r)).0 d),
            e,
          ),
      λ h.
          let (a, b, c, d, e) = h in
          let (token, presented, accepted) = d in
          base.1 (
            a,
            b,
            c,
            (Accepts-iff auth r.room role (token_of r)).1
                (subst (Accepts auth r.room role) (Presents-same r token presented) accepted),
            e,
          ),
    )

module _ (marshal : Envelope → Frame) (unmarshal : Frame → Option Envelope) (P : Presence) where
  -- Whether the queue of the occupant has room for it or not.
  receive_sends :
      (h : Hub marshal P) (room : String) (id other : PeerId) (role : Role) (message : Frame)
      (env : Envelope) (q : WsPeer)
      → IsValid marshal P h
      → unmarshal message ≡ some env
      → occupant marshal P h room (opposite role) ≡ some other
      → lookup other h.peers ≡ some q
      → receive marshal unmarshal P h room id role message
        ≡ done (after_send marshal P h other q (marshal (record env { sender = role_text role })))
  unfolding receive
  receive_sends h room id other role message env q v e o l =
      rw (e, receive) (relay_lem marshal P h room role _ other q o l (v.guarded other q l))

  -- A well-formed message of a peer, in a valid hub whose room has another occupant in the opposite
  -- role, whose channel is open with fewer than 32 frames waiting, is queued for that occupant, after those
  -- frames, with the sender that the message claims replaced by the sender's own role; nothing else
  -- changes. No other connection acts in between.
  pub receive_relays :
      (h : Hub marshal P) (room : String) (id other : PeerId) (role : Role) (message : Frame)
      (env : Envelope) (q : WsPeer)
      → IsValid marshal P h
      → unmarshal message ≡ some env
      → occupant marshal P h room (opposite role) ≡ some other
      → lookup other h.peers ≡ some q
      → q.closed ≡ false
      → length q.channel.buffer < 32
      → receive marshal unmarshal P h room id role message
        ≡ done (record h {
          peers =
              insert other
                (record q {
                  channel = record q.channel {
                    buffer =
                        q.channel.buffer ++ marshal (record env { sender = role_text role }) ∷ [];
                  };
                })
                h.peers;
        })
  receive_relays h room id other role message env q v e o l unclosed room_left =
      receive_sends h room id other role message env q v e o l
      ∙ ap (λ (x : WsPeer). done (record h { peers = insert other x h.peers }))
          (sent_queues q (marshal (record env { sender = role_text role })) unclosed room_left)
