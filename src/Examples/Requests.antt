-- ===== src/Examples/Requests.antt =====
-- Runs of requests: routes, statuses, redemption over HTTP, and the end of a room.
use ar_app.Base.{
  ◌≡◌, ◌≢◌, refl, true, false, Option, none, some, List, [], ◌∷◌, ◌++◌, String, string_eq, nat_eq,
  arith, if◌then◌else◌,
}
use ar_app.Base.Map.{lookup, insert}
use ar_app.Auth.{Principal, authenticated, middleware, bearer_token, parse}
use ar_app.Router.{Deps, to_me, runs, Request, routes, dispatch, pass_guard}
use ar_app.Router.Access.{dispatch_authed}
use ar_app.Router.Status.{Handler, header, body, Metrics}
use ar_app.Session.Service.{token_key, hash_pin}
use ar_app.Session.Handlers.{serve_redeem}
use ar_app.Session.Handlers.Statuses.{request, serve_redeem_blind}
use ar_app.Session.Table.{ended, Session, Table, active}
use ar_app.Signaling.Role.{agent}
use ar_app.Signaling.Channel.{done}
use ar_app.Signaling.Presence.{local_join}
use ar_app.Signaling.Presence.Counting.{local_presence}
use ar_app.Signaling.Hub.{register}
use ar_app.Signaling.Lifecycle.{
  ready_tasks, Conn, removed, Action, opens, goes_on, drops, run, step,
}
use ar_app.Server.RoomEnded.{ends, rooms_ended, departure_ends_session}
use ar_app.Examples.Server.{memory, memory_up, no_keys}
use ar_app.Examples.Codec.{unary}
use ar_app.Examples.Limits.{net}
use ar_app.Examples.Rooms.{print, scan, Sys, start, settled}
use ar_app.Examples.Redeems.{
  demo, rec, minted_world, holds_record, only_counts, no_attempts, differ,
}
use ar_app.Examples.Tokens.{user_signer, issuer, fold_eq, trim, caller}

abbrev config : Deps
config = record {
  readiness = true;
  recordings = false;
  register_limiter = none;
  auth_limiter = none;
  redeem_limiter = none;
}

abbrev bearer : Request
bearer = record {
  sender = record { remote_addr = "1.2.3.4"; forwarded_for = "" };
  authorization = "Bearer usr";
}

reaches_me :
    dispatch net memory [] fold_eq trim user_signer unary issuer 120 config
      (some "GET /v1/me")
      bearer
      no_keys
    ≡ (no_keys, runs to_me (some caller))
unfolding dispatch routes lookup pass_guard middleware bearer_token parse
reaches_me = refl

dispatch_authed_example :
    (p : Principal) × (◌≡◌ {A = Option Principal} (some caller) (some p))
    × (middleware fold_eq trim user_signer unary issuer 120 "Bearer usr" ≡ authenticated p)
dispatch_authed_example =
    dispatch_authed net memory [] fold_eq trim user_signer unary issuer 120 config
      (some "GET /v1/me") bearer no_keys no_keys to_me (some caller) reaches_me refl

-- A handler that answers 404 and then panics.
abbrev faulty : Handler
faulty = record { writes = header 404 ∷ body "{}" ∷ []; panics = true }

abbrev no_metrics : Metrics
no_metrics = record { requests = []; observed = [] }

unknown : lookup (token_key "43") minted_world.store.texts ≡ none
unfolding minted_world lookup
unknown = refl

wrong_pin : hash_pin demo "999999" ≢ rec.pin_hash
unfolding hash_pin
wrong_pin = differ "#999999" "#123456" refl

serve_redeem_blind_example :
    (serve_redeem demo 200 (request demo "43" "1") minted_world).1
    ≡ (serve_redeem demo 201 (request demo "42" "999999") minted_world).1
serve_redeem_blind_example =
    serve_redeem_blind demo memory_up "43" "42" "1" "999999" 200 201 minted_world minted_world rec
      (differ "43" "" refl) (differ "1" "" refl) (differ "42" "" refl) (differ "999999" "" refl)
      unknown holds_record (omega (arith, no_attempts)) only_counts wrong_pin

-- The agent of the session 1 comes and goes.
abbrev comes_and_goes : List Action
comes_and_goes = opens "a" "1" agent ∷ goes_on "a" ∷ goes_on "a" ∷ drops "a" ∷ []

unfoldable leaving : Sys
unfolding run
leaving = settled (run print scan local_presence start comes_and_goes)

leaves_room : run print scan local_presence start comes_and_goes ≡ done leaving
unfolding leaving run lookup insert local_join register ready_tasks
leaves_room = refl

abbrev conn : Conn
conn = record { room = "1"; role = agent; phase = removed; tasks = [] }

conn_found : lookup "a" leaving.conns ≡ some conn
unfolding leaving run lookup insert local_join register ready_tasks
conn_found = refl

abbrev call : Session
call = record {
  org_id = 2;
  agent_id = 8;
  connect_id = "123456789";
  status = active;
  created_at = 100;
  connected_at = some 110;
  ended_at = none;
}

abbrev rows : Table
rows = (1, call) ∷ []

call_found : lookup 1 rows ≡ some call
unfolding lookup
call_found = refl

departure_ends_session_example :
    (s : Sys) × (calls : List String) × (step print scan local_presence leaving (goes_on "a")
      ≡ done s)
    × (s.hub.ended ≡ leaving.hub.ended ++ calls)
    × (lookup 1 (rooms_ended unary 500 true calls rows)
        ≡ some (
            if ends unary 500 print scan local_presence leaving "a" conn
            then record call { status = ended; ended_at = some 500 }
            else call))
departure_ends_session_example =
    departure_ends_session unary 500 print scan local_presence comes_and_goes leaving "a" conn 1
      rows call leaves_room conn_found refl refl call_found refl
