-- ===== src/Examples/Rooms.antt =====
-- Runs of the hub, of its handler and of schedules, with the presence of one process.
use ar_app.Base.{
  ◌≡◌, ◌≢◌, ◌↔◌, refl, true, false, Option, none, some, List, [], ◌∷◌, ◌++◌, String, ◌<◌, ◌==◌,
  nat_eq, string_eq, arith, if◌then◌else◌,
}
use Prim.Native.String
use ar_app.Base.Map.{lookup, insert}
use ar_app.Signaling.Role.{Role, agent, phone, role_eq, role_text}
use ar_app.Signaling.Channel.{Frame, Outcome, done, panic, WsPeer, new_peer, send}
use ar_app.Signaling.Presence.{local_join, local_count}
use ar_app.Signaling.Presence.Counting.{local_presence}
use ar_app.Signaling.Hub.{Envelope, PeerId, occupant, send_to, register, join}
use ar_app.Signaling.Hub.Pairing.{joined, told, join_ready}
use ar_app.Signaling.Handler.{Request, admitted, serve_ws, receive}
use ar_app.Signaling.Handler.Admission.{Presents, Accepts, serve_ws-admitted_iff, receive_relays}
use ar_app.Signaling.Lifecycle.{
  ready_tasks, found_by, work, reads, Conn, reading, removed, Action, opens, drops, goes_on, System,
  initial, step, run, live, held,
}
use ar_app.Signaling.Lifecycle.Moves.{IsSound}
use ar_app.Signaling.Lifecycle.Safety.{
  reached-IsSound, run_counts, run_occupants, reconnect_keeps_room,
}

abbrev pub print : Envelope → Frame
print e = String.◌++◌ e.kind (String.◌++◌ ":" e.sender)

abbrev pub scan : Frame → Option Envelope
scan f =
    if f == "offer"
    then some (record { kind = "offer"; sender = "phone"; payload = none })
    else none

abbrev pub Sys : Type 0
Sys = System print scan local_presence

abbrev pub start : Sys
start = initial print scan local_presence

abbrev pub settled : Outcome Sys → Sys
settled (done s) = s
settled panic = start

-- The agent reads, and the phone's socket is open.
abbrev agent_waits : List Action
agent_waits = opens "a" "r" agent ∷ goes_on "a" ∷ goes_on "a" ∷ opens "p" "r" phone ∷ []

unfoldable waiting : Sys
unfolding run
waiting = settled (run print scan local_presence start agent_waits)

waiting-IsSound : IsSound print scan local_presence waiting
unfolding waiting run lookup insert local_join register ready_tasks
waiting-IsSound = reached-IsSound print scan local_presence agent_waits waiting refl

-- Both sides read.
abbrev both_join : List Action
both_join = agent_waits ++ goes_on "p" ∷ goes_on "p" ∷ goes_on "p" ∷ goes_on "p" ∷ goes_on "p" ∷ []

unfoldable pub paired : Sys
unfolding run
paired = settled (run print scan local_presence start both_join)

paired-IsSound : IsSound print scan local_presence paired
unfolding paired run lookup insert local_join register send_to send work found_by ready_tasks
paired-IsSound = reached-IsSound print scan local_presence both_join paired refl

-- The agent reconnects, and its old socket is removed.
abbrev agent_returns : List Action
agent_returns =
    opens "a" "r" agent
    ∷ goes_on "a"
    ∷ goes_on "a"
    ∷ opens "b" "r" agent
    ∷ goes_on "b"
    ∷ goes_on "b"
    ∷ drops "a"
    ∷ []

unfoldable returning : Sys
unfolding run
returning = settled (run print scan local_presence start agent_returns)

returns : run print scan local_presence start agent_returns ≡ done returning
unfolding returning run lookup insert local_join register ready_tasks
returns = refl

abbrev old_conn : Conn
old_conn = record { room = "r"; role = agent; phase = removed; tasks = [] }

abbrev new_conn : Conn
new_conn = record { room = "r"; role = agent; phase = reading; tasks = [] }

abbrev agent_peer : WsPeer
agent_peer = record (new_peer agent) {
  channel = record { buffer = "peer-ready:" ∷ []; shut = false };
}

holds_agent : occupant print local_presence paired.hub "r" agent ≡ some "a"
unfolding paired run lookup insert local_join register send_to send work found_by ready_tasks
holds_agent = refl

stores_agent : lookup "a" paired.hub.peers ≡ some agent_peer
unfolding paired run lookup insert local_join register send_to send work found_by ready_tasks
stores_agent = refl

receive_relays_example :
    receive print scan local_presence paired.hub "r" "p" phone "offer"
    ≡ done (record paired.hub {
      peers =
          insert "a"
            (record agent_peer {
              channel = record { buffer = "peer-ready:" ∷ "offer:phone" ∷ []; shut = false };
            })
            paired.hub.peers;
    })
receive_relays_example =
    receive_relays print scan local_presence paired.hub "r" "p" "a" phone "offer"
      (record { kind = "offer"; sender = "phone"; payload = none }) agent_peer paired-IsSound.hub
      refl holds_agent stores_agent refl (omega arith)

agent_counted : 0 < local_count waiting.hub.presence "r" agent
unfolding waiting run lookup insert local_join register ready_tasks
agent_counted = omega arith

agent_holds : occupant print local_presence waiting.hub "r" agent ≡ some "a"
unfolding waiting run lookup insert local_join register ready_tasks
agent_holds = refl

agent_stored : lookup "a" waiting.hub.peers ≡ some (new_peer agent)
unfolding waiting run lookup insert local_join register ready_tasks
agent_stored = refl

phone_stored : lookup "p" waiting.hub.peers ≡ some (new_peer phone)
unfolding waiting run lookup insert local_join register ready_tasks
phone_stored = refl

other_ids : (a b : String) → (a == b) ≡ false → a ≢ b
other_ids a b h e = ground (arith, string_eq.beq_iff a b)

join_ready_example :
    join print local_presence waiting.hub "r" "p" phone
    ≡ done (record (joined print local_presence waiting.hub "r" "p" phone) {
      peers =
          insert "a"
            (told print local_presence (new_peer agent))
            (insert "p" (told print local_presence (new_peer phone)) waiting.hub.peers);
    })
join_ready_example =
    join_ready print local_presence waiting.hub "r" "p" "a" phone (new_peer phone) (new_peer agent)
      waiting-IsSound.hub agent_counted agent_holds (other_ids "p" "a" refl) phone_stored
      agent_stored refl refl (omega arith) (omega arith)

abbrev phone_request : Request
phone_request = record { room = "11"; role = "phone"; header_token = ""; query_token = "t" }

serve_ws-admitted_iff_example :
    (serve_ws (λ s. s == "11") (some λ room role token. token == "t") true phone_request
      ≡ admitted "11" phone)
    ↔ ((phone_request.room ≡ "11")
        × ((phone_request.room == "11") ≡ true)
        × (phone_request.role ≡ role_text phone)
        × ((token : String) × Presents phone_request token
            × Accepts (some λ room role token. token == "t") phone_request.room phone token)
        × (true ≡ true))
serve_ws-admitted_iff_example =
    serve_ws-admitted_iff (λ s. s == "11") (some λ room role token. token == "t") true phone_request
      "11" phone

-- The phone finds the agent, whose channel is closed before the phone's message is sent to it.
abbrev racing : List Action
racing =
    both_join
    ++ reads "p" "offer" ∷ goes_on "p" ∷ drops "a" ∷ goes_on "a" ∷ goes_on "a" ∷ goes_on "p" ∷ []

run_counts_example :
    (s : Sys) × (run print scan local_presence start racing ≡ done s)
    × ((room : String) (role : Role)
        → local_count s.hub.presence room role ≡ live s.conns room role)
run_counts_example = run_counts print scan local_presence racing

run_occupants_example :
    (s : Sys) × (run print scan local_presence start both_join ≡ done s)
    × ((room : String) (role : Role) (id : PeerId)
        → occupant print local_presence s.hub room role ≡ some id
        → (c : Conn) × (lookup id s.conns ≡ some c)
          × (c.room ≡ room)
          × (c.role ≡ role)
          × (held c.phase ≡ true))
run_occupants_example = run_occupants print scan local_presence both_join

old_found : lookup "a" returning.conns ≡ some old_conn
unfolding returning run lookup insert local_join register ready_tasks
old_found = refl

new_found : lookup "b" returning.conns ≡ some new_conn
unfolding returning run lookup insert local_join register ready_tasks
new_found = refl

reconnect_keeps_room_example :
    (t : Sys) × (step print scan local_presence returning (goes_on "a") ≡ done t)
    × (t.hub.ended ≡ returning.hub.ended)
reconnect_keeps_room_example =
    reconnect_keeps_room print scan local_presence agent_returns returning "a" "b" old_conn new_conn
      returns old_found refl new_found (other_ids "b" "a" refl) refl refl
