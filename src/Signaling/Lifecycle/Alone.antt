-- ===== src/Signaling/Lifecycle/Alone.antt =====
-- deliverLocal of hub.go and a message of the loop of readPump in handlers.go, when no other connection
-- acts between the regions.
use ar_app.Base.{
  ◌≡◌, refl, Option, some, Option-cases, inl, inr, [], ◌∷◌, String, List, string_eq, arith,
}
use ar_app.Base.Map.{Map, lookup, insert, lookup-insert}
use ar_app.Signaling.Role.{Role, opposite, role_text}
use ar_app.Signaling.Channel.{Frame, Outcome, done, panic, ◌>>=◌}
use ar_app.Signaling.Presence.{Presence}
use ar_app.Signaling.Hub.{Envelope, PeerId, Hub, occupant, send_to, deliver_local, relay}
use ar_app.Signaling.Handler.{receive, malformed}
use ar_app.Signaling.Lifecycle.{
  Task, hands, finds, Conn, reading, reads, goes_on, System, with_tasks, found_by, work,
  message_tasks, advance, read_next, step, run,
}

-- A connection that reads, with what it still has to do for the message before.
abbrev busy : String → Role → List Task → Conn
busy room role tasks = record { room = room; role = role; phase = reading; tasks = tasks }

module _ (marshal : Envelope → Frame) (unmarshal : Frame → Option Envelope) (P : Presence) where
  lookup_after :
      (id : PeerId) (c : Conn) (conns : Map PeerId Conn) → lookup id (insert id c conns) ≡ some c
  lookup_after id c conns = ground (arith, lookup-insert id id c conns, string_eq.beq_iff id id)

  goes_on_busy :
      (s : System marshal unmarshal P) (id : PeerId) (room : String) (role : Role)
      (tasks : List Task)
      → lookup id s.conns ≡ some (busy room role tasks)
      → step marshal unmarshal P s (goes_on id)
        ≡ work marshal unmarshal P s id (busy room role tasks) tasks
  unfolding step advance
  goes_on_busy s id room role tasks l = rw (l, step) refl

  hands_alone :
      (s : System marshal unmarshal P) (id other : PeerId) (room : String) (role : Role)
      (frame : Frame)
      → lookup id s.conns ≡ some (busy room role (hands other frame ∷ []))
      → (run marshal unmarshal P s (goes_on id ∷ []) >>= λ s'. done s'.hub)
        ≡ send_to marshal P s.hub other frame
  unfolding run work
  hands_alone s id other room role frame l =
      rw (goes_on_busy s id room role (hands other frame ∷ []) l)
        (go (send_to marshal P s.hub other frame))
    where
      go :
          (o : Outcome (Hub marshal P))
          → (((o >>= λ h. done (
                  with_tasks marshal unmarshal P s id
                    (busy room role (hands other frame ∷ []))
                    []
                    h))
                >>= λ s'. done s')
              >>= λ s'. done s'.hub)
            ≡ o
      go (done h) = refl
      go panic = refl

  hands_rest :
      (s : System marshal unmarshal P) (id other : PeerId) (room : String) (role : Role)
      (frame : Frame)
      → lookup id s.conns ≡ some (busy room role (hands other frame ∷ []))
      → (run marshal unmarshal P s (goes_on id ∷ goes_on id ∷ []) >>= λ s'. done s'.hub)
        ≡ send_to marshal P s.hub other frame
  unfolding run work
  hands_rest s id other room role frame l =
      rw (goes_on_busy s id room role (hands other frame ∷ []) l)
        (go (send_to marshal P s.hub other frame))
    where
      after : Hub marshal P → System marshal unmarshal P
      after h = with_tasks marshal unmarshal P s id (busy room role (hands other frame ∷ [])) [] h

      go :
          (o : Outcome (Hub marshal P))
          → (((o >>= λ h. done (after h)) >>= λ s'.
                step marshal unmarshal P s' (goes_on id) >>= λ s''. done s'')
              >>= λ s'. done s'.hub)
            ≡ o
      go (done h) =
          rw (goes_on_busy (after h) id room role [] (lookup_after id (busy room role []) s.conns))
            refl
      go panic = refl

  -- deliverLocal, when no other connection acts between its lookup and its send.
  finds_alone :
      (s : System marshal unmarshal P) (id : PeerId) (room : String) (role target : Role)
      (frame : Frame)
      → lookup id s.conns ≡ some (busy room role (finds room target frame ∷ []))
      → (run marshal unmarshal P s (goes_on id ∷ goes_on id ∷ []) >>= λ s'. done s'.hub)
        ≡ deliver_local marshal P s.hub room target frame
  unfolding run work deliver_local found_by
  finds_alone s id room role target frame l =
      elim (Option-cases (occupant marshal P s.hub room target)) [
        | inl o ↦
            rw
              (
                goes_on_busy s id room role (finds room target frame ∷ []) l,
                o,
                found_by,
                deliver_local,
              )
              (rw
                (goes_on_busy (after []) id room role []
                  (lookup_after id (busy room role []) s.conns))
                refl)
        | inr (other, o) ↦
            rw
              (
                goes_on_busy s id room role (finds room target frame ∷ []) l,
                o,
                found_by,
                deliver_local,
              )
              (hands_alone (after (hands other frame ∷ [])) id other room role frame
                (lookup_after id (busy room role (hands other frame ∷ [])) s.conns))
      ]
    where
      after : List Task → System marshal unmarshal P
      after tasks =
          with_tasks marshal unmarshal P s id (busy room role (finds room target frame ∷ [])) tasks
            s.hub

  reads_free :
      (s : System marshal unmarshal P) (id : PeerId) (room : String) (role : Role) (message : Frame)
      → lookup id s.conns ≡ some (busy room role [])
      → step marshal unmarshal P s (reads id message)
        ≡ done (
            with_tasks marshal unmarshal P s id
              (busy room role [])
              (message_tasks marshal unmarshal P id (busy room role []) message)
              s.hub)
  unfolding step read_next
  reads_free s id room role message l = rw (l, step) refl

  -- A message that is read by a connection that is free, and the two regions that follow, with no
  -- action of another connection in between, change the hub as the function receive does.
  receive_alone :
      (s : System marshal unmarshal P) (id : PeerId) (room : String) (role : Role) (message : Frame)
      → lookup id s.conns ≡ some (busy room role [])
      → (run marshal unmarshal P s (reads id message ∷ goes_on id ∷ goes_on id ∷ []) >>= λ s'.
          done s'.hub)
        ≡ receive marshal unmarshal P s.hub room id role message
  unfolding run message_tasks receive relay deliver_local
  receive_alone s id room role message l = elim (Option-cases (unmarshal message)) [
    | inl e ↦
        rw (reads_free s id room role message l, e, message_tasks, receive)
          (hands_rest (after (hands id (malformed marshal unmarshal P) ∷ [])) id id room role
            (malformed marshal unmarshal P)
            (lookup_after id (busy room role (hands id (malformed marshal unmarshal P) ∷ []))
              s.conns))
    | inr (env, e) ↦
        let frame = marshal (record env { sender = role_text role }) in
        rw (reads_free s id room role message l, e, message_tasks, receive, relay)
          (finds_alone (after (finds room (opposite role) frame ∷ [])) id room role (opposite role)
            frame
            (lookup_after id (busy room role (finds room (opposite role) frame ∷ [])) s.conns))
  ]
    where
      after : List Task → System marshal unmarshal P
      after tasks = with_tasks marshal unmarshal P s id (busy room role []) tasks s.hub
