-- ===== src/Examples/Entries.antt =====
-- Runs from a minted token to the signaling room.
use ar_app.Base.{◌≡◌, refl, true, some, [], ◌∷◌, string_eq, nat_eq, arith}
use ar_app.Base.Map.{lookup}
use ar_app.Platform.Jwt.{Jwt}
use ar_app.Signaling.Role.{Role, phone, role_text}
use ar_app.Signaling.Handler.{admitted, serve_ws}
use ar_app.Auth.{signaling_payload, issue_signaling, signaling_auth}
use ar_app.Session.Service.{
  Token, JoinInfo, Deps, ok, token_key, World, redeem, load_token, redeem_loaded, track_attempt,
  check_limit, verify, consume,
}
use ar_app.Session.Entry.{request_for, is_uuid, serve_ws-redeem}
use ar_app.Examples.Codec.{encode, decode}
use ar_app.Examples.Redeems.{demo, rec}
use ar_app.Examples.Tokens.{signer, issuer, blank}

-- The service with an issuer that signs for one role in the room of the session 1.
abbrev opener : Role → Jwt
opener role =
    signer "tok" "s" (signaling_payload (signer "" "" blank) issuer "1" (role_text role) 100 "j")

abbrev signing : Role → Deps
signing r = record demo {
  issue_signaling = λ room role. issue_signaling (opener r) issuer room (role_text role) 100 "j";
}

abbrev held : World (signing phone)
held = record {
  store = record { texts = (token_key "42", encode rec) ∷ []; counters = []; lifetimes = [] };
  sessions = [];
  rand = [];
  outages = [];
}

abbrev info : JoinInfo
info = record { session_id = 1; room = "1"; signaling_token = "tok"; ice_servers = [] }

abbrev used : World (signing phone)
used = (redeem (signing phone) "42" "123456" 100 held).0

redeems : redeem (signing phone) "42" "123456" 100 held ≡ (used, ok info)
unfolding redeem load_token lookup redeem_loaded track_attempt check_limit verify decode encode
    consume issue_signaling
redeems = refl

serve_ws-redeem_example :
    serve_ws
      (is_uuid (signing phone) (opener phone) issuer 100 "j")
      (some (signaling_auth (opener phone) issuer 120))
      true
      (request_for "1" phone "tok")
    ≡ admitted "1" phone
serve_ws-redeem_example =
    serve_ws-redeem (signing phone) (opener phone) issuer 100 "j" "42" "123456" 100 120 held used
      info (λ room role. refl) redeems (omega arith)

abbrev token : Token
token = record {
  session_id = 1;
  connect_id = "000000000";
  pin = "000000";
  expires_at = 700;
  signaling_token = "tok";
}
