-- ===== src/Examples/Redeems.antt =====
-- Runs of Mint and Redeem, over a Redis in memory.
use ar_app.Base.{
  true, ◌≡◌, ◌≢◌, refl, ap, ◌<◌, false, Option, none, some, List, [], ◌∷◌, String, ℕ, ◌==◌, nat_eq,
  string_eq, arith, ltb, if◌then◌else◌, All,
}
use Prim.Native.String
use ar_app.Base.Map.{lookup, insert}
use ar_app.Signaling.Role.{role_text}
use ar_app.Session.Table.{active, Session, insert_pending}
use ar_app.Session.Service.{
  TokenRecord, Token, Deps, ok, err, invalid_token, token_key, attempts_key, World, redeem,
  redeem_both, hash_pin, exec,
}
use ar_app.Session.Service.Redeeming.{Redeemed, redeem-Redeemed}
use ar_app.Session.Service.Acceptance.{info_of, redeem_accepts, redeem_race, redeem_once}
use ar_app.Session.Service.Lockout.{try_pins, lockout}
use ar_app.Session.Mint.{mint, digits, random_digits, insert_session, store_token, settle, finish}
use ar_app.Session.Mint.Minted.{redeem-mint, pending_row}
use ar_app.Examples.Server.{memory, memory_up, no_keys}
use ar_app.Examples.Codec.{encode, decode, decode-encode, unary, next_id, next_id_fresh}

-- Random numbers from a list, then zeros.
abbrev pub draw : List ℕ → ℕ → Option (ℕ × List ℕ)
draw [] n = if ltb 0 n then some (0, []) else none
draw (v ∷ r) n = if ltb v n then some (v, r) else none

pub draw-lt : (r s : List ℕ) (n v : ℕ) → draw r n ≡ some (v, s) → v < n
draw-lt [] s n v h = ground arith
draw-lt (u ∷ r) s n v h = ground arith

abbrev pub demo : Deps
demo = record {
  redis = memory;
  uuids = unary;
  encode = encode;
  decode = decode;
  decode-encode = decode-encode;
  sha256 = λ s. s;
  hex = λ s. String.◌++◌ "#" s;
  Rand = List ℕ;
  rand_int = draw;
  rand_int-lt = draw-lt;
  new_id = next_id;
  new_id_fresh = next_id_fresh;
  issue_signaling = λ room role. some (role_text role);
  ice_servers = λ now identifier. [];
  ttl = 600;
}

abbrev start : World demo
start = record { store = no_keys; sessions = []; rand = []; outages = [] }

-- The record of a token whose PIN is 123456.
abbrev pub rec : TokenRecord
rec = record { session_id = "1"; org_id = "11"; agent_id = "111"; pin_hash = "#123456" }

-- The connect id 42, minted.
unfoldable pub minted_world : World demo
unfolding insert_pending
minted_world = record {
  store = record { texts = (token_key "42", encode rec) ∷ []; counters = []; lifetimes = [] };
  sessions = insert_pending 1 2 3 "42" 100 [];
  rand = [];
  outages = [];
}

pub holds_record : lookup (token_key "42") minted_world.store.texts ≡ some (encode rec)
unfolding minted_world lookup
holds_record = refl

pub only_counts : demo.redis.countable minted_world.store (attempts_key "42") ≡ true
unfolding minted_world lookup
only_counts = refl

abbrev minted_row : Session
minted_row = pending_row demo 2 3 "42" 100

row_minted : lookup 1 minted_world.sessions ≡ some minted_row
unfolding minted_world lookup insert_pending insert
row_minted = refl

pub no_attempts : demo.redis.counter minted_world.store (attempts_key "42") ≡ 0
unfolding minted_world lookup
no_attempts = refl

no_outages : minted_world.outages ≡ []
unfolding minted_world
no_outages = refl

right_pin : hash_pin demo "123456" ≡ rec.pin_hash
unfolding hash_pin
right_pin = refl

redeem_accepts_example :
    (w : World demo) × (redeem demo "42" "123456" 200 minted_world
      ≡ (w, ok (info_of demo memory_up 1 "phone" 200)))
    × (lookup (token_key "42") w.store.texts ≡ none)
    × (lookup 1 w.sessions ≡ some (record minted_row { status = active; connected_at = some 200 }))
redeem_accepts_example =
    redeem_accepts demo memory_up "42" "123456" 200 minted_world rec 1 "phone" minted_row
      only_counts holds_record (omega (arith, no_attempts)) right_pin refl no_outages refl
      row_minted refl

redeem_race_example :
    (w : World demo) × (redeem_both demo "42" "123456" 200 201 minted_world
      ≡ (w, ok (info_of demo memory_up 1 "phone" 200, info_of demo memory_up 1 "phone" 201)))
    × (lookup 1 w.sessions ≡ some (record minted_row { status = active; connected_at = some 200 }))
redeem_race_example =
    redeem_race demo memory_up "42" "123456" 200 201 minted_world rec 1 "phone" minted_row
      only_counts holds_record (omega (arith, no_attempts)) right_pin refl no_outages refl
      row_minted refl

-- The world after the redeem, by running it.
abbrev redeemed_world : World demo
redeemed_world = (redeem demo "42" "123456" 200 minted_world).0

redeems :
    redeem demo "42" "123456" 200 minted_world
    ≡ (redeemed_world, ok (info_of demo memory_up 1 "phone" 200))
redeems =
    let (w, e, gone, table) =
      redeem_accepts demo memory_up "42" "123456" 200 minted_world rec 1 "phone" minted_row
        only_counts holds_record (omega (arith, no_attempts)) right_pin refl no_outages refl
        row_minted refl in
    ap (λ x. (redeemed_world, x.1)) e

redeem-Redeemed_example :
    Redeemed demo "42" "123456" 200 minted_world redeemed_world
      (info_of demo memory_up 1 "phone" 200)
redeem-Redeemed_example =
    redeem-Redeemed demo "42" "123456" 200 minted_world redeemed_world
      (info_of demo memory_up 1 "phone" 200) redeems

redeem_once_example :
    redeem demo "42" "123456" 300 redeemed_world ≡ (redeemed_world, err invalid_token)
redeem_once_example =
    redeem_once demo memory_up "42" "123456" "123456" 200 300 minted_world redeemed_world
      (info_of demo memory_up 1 "phone" 200) redeems

abbrev guesses : List (String × ℕ)
guesses = ("0", 1) ∷ ("1", 2) ∷ ("2", 3) ∷ ("3", 4) ∷ ("4", 5) ∷ ("5", 6) ∷ []

pub differ : (a b : String) → (a == b) ≡ false → a ≢ b
differ a b h e = ground (arith, string_eq.beq_iff a b)

guesses_wrong : All (λ (g : String × ℕ). hash_pin demo g.0 ≢ rec.pin_hash) guesses
unfolding hash_pin
guesses_wrong = (
  differ "#0" "#123456" refl,
  (
    differ "#1" "#123456" refl,
    (
      differ "#2" "#123456" refl,
      (differ "#3" "#123456" refl, (differ "#4" "#123456" refl, (differ "#5" "#123456" refl, tt))),
    ),
  ),
)

lockout_example :
    redeem demo "42" "123456" 7 (try_pins demo memory_up "42" guesses minted_world)
    ≡ (try_pins demo memory_up "42" guesses minted_world, err invalid_token)
lockout_example =
    lockout demo memory_up "42" "123456" 7 guesses minted_world rec (omega arith) only_counts
      holds_record no_attempts guesses_wrong (omega arith)

abbrev demo_token : Token
demo_token = record {
  session_id = 1;
  connect_id = "000000000";
  pin = "000000";
  expires_at = 700;
  signaling_token = "agent";
}

abbrev after_mint : World demo
after_mint = (mint demo 2 3 100 start).0

mints : mint demo 2 3 100 start ≡ (after_mint, ok demo_token)
unfolding mint digits random_digits insert_session exec store_token lookup settle finish
mints = refl

unused_id : demo.redis.counter after_mint.store (attempts_key "000000000") ≡ 0
unfolding mint digits random_digits insert_session exec store_token lookup settle finish
unused_id = refl

only_tries : demo.redis.countable after_mint.store (attempts_key "000000000") ≡ true
unfolding mint digits random_digits insert_session exec store_token lookup settle finish insert
only_tries = refl

few_attempts : demo.redis.counter after_mint.store (attempts_key "000000000") < 5
few_attempts = omega (arith, unused_id)

no_outage : after_mint.outages ≡ []
unfolding mint digits random_digits insert_session exec store_token lookup settle finish
no_outage = refl

redeem-mint_example :
    (w : World demo) × (redeem demo "000000000" "000000" 200 after_mint ≡ (
      w,
      ok (record { session_id = 1; room = "1"; signaling_token = "phone"; ice_servers = [] }),
    ))
    × (lookup 1 w.sessions
        ≡ some (record (pending_row demo 2 3 "000000000" 100) {
          status = active;
          connected_at = some 200;
        }))
redeem-mint_example =
    redeem-mint demo 2 3 100 200 start after_mint demo_token "phone" mints memory_up only_tries
      few_attempts no_outage refl
