-- ===== src/Examples/Launches.antt =====
-- Runs of the server from its start-up on.
use ar_app.Base.{
  false, ◌==◌, some, string_eq, nat_eq, ◌⊎◌, inr, ◌≡◌, refl, true, Option, none, List, [], ◌∷◌,
  String, string_eq, nat_eq,
}
use Prim.Native.Nat.{min}
use ar_app.Base.Map.{lookup}
use ar_app.Base.Int.{ℤ}
use ar_app.Config.{Config, config_of, minutes, Environment, load, getdur}
use ar_app.Ratelimit.{parse_trusted_proxies, parse_ranges}
use ar_app.Ratelimit.Clients.{IsFrom, direct}
use ar_app.Router.{Request}
use ar_app.Store.{Database, Answer}
use ar_app.Server.Startup.{App, listens, wired, startup}
use ar_app.Server.Startup.Limits.{logging_in, key_for, let_through, store_after, server_throttles}
use ar_app.Examples.Server.{Memory, memory, memory_up, no_keys}
use ar_app.Examples.Codec.{unary}
use ar_app.Examples.Limits.{net}
use ar_app.Examples.Tokens.{user_signer, issuer, fold_eq, trim}

abbrev unset : Environment
unset key = none

abbrev no_number : String → Option ℤ
no_number s = none

abbrev Schema : Type 0
Schema = List String

abbrev empty : Database Schema
empty = record { contents = []; versions = [] }

abbrev nothing_to_apply : Database Schema → Answer Schema
nothing_to_apply db = (db, none)

abbrev defaults : Config
defaults =
    config_of unset (minutes 15) (minutes 43200) (minutes 10) (minutes 240) (minutes 60)
      (minutes 15)

abbrev app : App net
app = wired net defaults [] none

launched : startup net no_number no_number unset true nothing_to_apply empty ≡ (empty, listens app)
unfolding startup load getdur parse_trusted_proxies parse_ranges wired
launched = refl

abbrev login_from : String → Request
login_from addr = record {
  sender = record { remote_addr = addr; forwarded_for = "9.9.9.9" };
  authorization = "";
}

abbrev logins : List (Request × String)
logins =
    (login_from "1.2.3.4", "1.2.3.4")
    ∷ (login_from "5.6.7.8", "5.6.7.8")
    ∷ (login_from "1.2.3.4", "1.2.3.4")
    ∷ []

-- The host is no proxy's, as no proxies are configured.
IsFrom-host :
    (host : String) → (host == "") ≡ false → IsFrom net app.proxies (login_from host).sender host
unfolding wired
IsFrom-host host h = direct host refl (inr (host, rw (h) refl, refl))

all_counts : (from : String) → memory.countable no_keys (key_for logging_in from) ≡ true
unfolding lookup
all_counts from = refl

counts_none : memory.counter no_keys "login:1.2.3.4" ≡ 0
unfolding lookup
counts_none = refl

abbrev final : Memory
final =
    store_after net memory fold_eq trim user_signer unary issuer 120 app logging_in logins no_keys

server_throttles_example :
    (let_through net memory fold_eq trim user_signer unary issuer 120 app logging_in "1.2.3.4"
        logins no_keys
      ≡ min 2 10)
    × (memory.counter final "login:1.2.3.4" ≡ 2)
    × ((memory.counter final "login:1.2.3.4" ≡ 0)
        ⊎ (memory.lifetime final "login:1.2.3.4" ≡ some 60000000000))
server_throttles_example =
    server_throttles net memory fold_eq trim user_signer unary issuer 120 no_number no_number unset
      true nothing_to_apply empty empty app logging_in "1.2.3.4" logins no_keys launched memory_up
      (IsFrom-host "1.2.3.4" refl, (IsFrom-host "5.6.7.8" refl, (IsFrom-host "1.2.3.4" refl, tt)))
      all_counts counts_none
