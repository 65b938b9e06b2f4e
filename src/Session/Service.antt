-- ===== src/Session/Service.antt =====
-- backend/internal/session/service.go: Mint and Redeem over Redis and the sessions table. A method
-- is a function of the world that returns the new world and its result.
pub mod Keys
pub mod Commands
pub mod Redeeming
pub mod Replies
pub mod Acceptance
pub mod Lockout
use ar_app.Base.{
  ℕ, zero, suc, ◌+◌, ◌<◌, ◌≡◌, Bool, true, false, Option, none, some, List, [], ◌∷◌, String, ◌==◌,
  string_eq, nat_eq, ltb, if◌then◌else◌,
}
use ar_app.Base.Map.{lookup}
use Prim.Native.String
use ar_app.Platform.Uuid.{Uuid, Uuids}
use ar_app.Platform.Redis.{Redis, Reply, failed, reply}
use ar_app.Signaling.Role.{Role, agent, phone}
use ar_app.Turn.{IceServer}
use ar_app.Session.Table.{Table, insert_pending, delete_session, activate, mark_ended, expire_stale}

-- The state of an outstanding token in Redis, before it is printed as JSON.
pub record TokenRecord : Type 0 where
  pub session_id : String
  pub org_id : String
  pub agent_id : String
  pub pin_hash : String

pub record Token : Type 0 where
  pub session_id : Uuid
  pub connect_id : String
  pub pin : String
  pub expires_at : ℕ
  pub signaling_token : String

pub record JoinInfo : Type 0 where
  pub session_id : Uuid
  pub room : String
  pub signaling_token : String
  pub ice_servers : List IceServer

-- What a Service is made with, and the libraries that it calls.
pub record Deps : Type 1 where
  pub redis : Redis
  pub uuids : Uuids
  -- encoding/json on a token record.
  pub encode : TokenRecord → String
  pub decode : String → Option TokenRecord
  pub decode-encode : (r : TokenRecord) → decode (encode r) ≡ some r
  pub sha256 : String → String
  pub hex : String → String
  -- crypto/rand: a number below the bound, and the rest of the source.
  pub Rand : Type 0
  pub rand_int : Rand → ℕ → Option (ℕ × Rand)
  pub rand_int-lt : (r s : Rand) (n v : ℕ) → rand_int r n ≡ some (v, s) → v < n
  -- The id that Postgres generates is not in use.
  pub new_id : Table → Uuid
  pub new_id_fresh : (t : Table) → lookup (new_id t) t ≡ none
  -- The issuer and the TURN minter of the same backend.
  pub issue_signaling : String → Role → Option String
  pub ice_servers : ℕ → String → List IceServer
  pub ttl : ℕ

pub data Error : Type 0 where
  invalid_token too_many_attempts : Error
  -- Any other error, by the step that failed.
  failure : String → Error

pub data Result (A : Type 0) : Type 0 where
  ok : A → Result A
  err : Error → Result A

abbrev pub token_key : String → String
token_key connect_id = String.◌++◌ "session:token:" connect_id

abbrev pub attempts_key : String → String
attempts_key connect_id = String.◌++◌ "session:attempts:" connect_id

abbrev pub connect_id_digits : ℕ
connect_id_digits = 9

abbrev pub pin_digits : ℕ
pin_digits = 6

abbrev pub max_redeem_tries : ℕ
max_redeem_tries = 5

-- `digits[idx]`
abbrev pub digit_text : ℕ → String
digit_text zero = "0"
digit_text (suc zero) = "1"
digit_text (suc (suc zero)) = "2"
digit_text (suc (suc (suc zero))) = "3"
digit_text (suc (suc (suc (suc zero)))) = "4"
digit_text (suc (suc (suc (suc (suc zero))))) = "5"
digit_text (suc (suc (suc (suc (suc (suc zero)))))) = "6"
digit_text (suc (suc (suc (suc (suc (suc (suc zero))))))) = "7"
digit_text (suc (suc (suc (suc (suc (suc (suc (suc zero)))))))) = "8"
digit_text (suc (suc (suc (suc (suc (suc (suc (suc (suc n))))))))) = "9"

module _ (D : Deps) where
  open D use {redis, uuids, ttl}

  pub record World : Type 0 where
    pub store : redis.Store
    pub sessions : Table
    pub rand : D.Rand
    -- Whether each of the next statements to Postgres fails; after the last one none does.
    pub outages : List Bool

  abbrev pub M : Type 0 → Type 0
  M A = World → World × Result A

  abbrev bind_result : {A B : Type 0} → World → Result A → (A → M B) → World × Result B
  bind_result w (ok a) k = k a w
  bind_result w (err e) k = (w, err e)

  infixl 5 ◌>>=◌ ◌>>◌
  abbrev pub ◌>>=◌ : {A B : Type 0} → M A → (A → M B) → M B
  ◌>>=◌ m k w = bind_result (m w).0 (m w).1 k

  abbrev pub ◌>>◌ : {B : Type 0} → M (Unit {0}) → M B → M B
  m >> k = m >>= λ _. k

  abbrev pub ret : {A : Type 0} → A → M A
  ret a w = (w, ok a)

  abbrev pub fail : {A : Type 0} → Error → M A
  fail e w = (w, err e)

  abbrev pub guard : Bool → Error → M (Unit {0})
  guard true e w = (w, ok tt)
  guard false e w = (w, err e)

  abbrev pub or_fail : {A : Type 0} → Option A → Error → M A
  or_fail none e w = (w, err e)
  or_fail (some a) e w = (w, ok a)

  -- One SQL statement that changes the sessions table.
  abbrev statement : List Bool → (Table → Table) → Error → M (Unit {0})
  statement [] f e w = (record w { sessions = f w.sessions }, ok tt)
  statement (false ∷ rest) f e w = (record w { sessions = f w.sessions; outages = rest }, ok tt)
  statement (true ∷ rest) f e w = (record w { outages = rest }, err e)

  unfoldable pub exec : (Table → Table) → Error → M (Unit {0})
  exec f e w = statement w.outages f e w

  unfoldable pub hash_pin : String → String
  hash_pin pin = D.hex (D.sha256 pin)

  -- invalidate: the reply of DEL is dropped.
  unfoldable pub invalidate : String → M (Unit {0})
  invalidate connect_id w = (
    record w { store = (redis.del w.store (token_key connect_id) (attempts_key connect_id)).0 },
    ok tt,
  )

  abbrev pub from_reply : {A : Type 0} → Reply A → Error → Result A
  from_reply failed e = err e
  from_reply (reply a) e = ok a

  abbrev loaded : Reply (Option String) → Result String
  loaded failed = err (failure "load token")
  loaded (reply none) = err invalid_token
  loaded (reply (some raw)) = ok raw

  -- GET of the token.
  unfoldable pub load_token : String → M String
  load_token connect_id w = (w, loaded (redis.get w.store (token_key connect_id)))

  -- INCR of the attempts, and EXPIRE at the first one.
  unfoldable pub track_attempt : String → M ℕ
  track_attempt connect_id w =
      let (s, r) = redis.incr w.store (attempts_key connect_id) in
      elim r [
        | failed ↦ (record w { store = s }, err (failure "track attempts"))
        | reply n ↦ (
          record w {
            store = if n == 1 then (redis.expire s (attempts_key connect_id) ttl).0 else s;
          },
          ok n,
        )
      ]

  -- The limit on attempts.
  unfoldable pub check_limit : String → ℕ → M (Unit {0})
  check_limit connect_id attempts =
      if ltb max_redeem_tries attempts
      then (invalidate connect_id >> fail too_many_attempts)
      else ret tt

  -- The PIN against the record, and the session id of the record.
  unfoldable pub verify : String → String → M Uuid
  unfolding hash_pin
  verify pin raw = do
    rec ← or_fail (D.decode raw) (failure "decode token")
    guard (hash_pin pin == rec.pin_hash) invalid_token
    or_fail (uuids.parse rec.session_id) invalid_token

  -- The rest of Redeem once the PIN is verified.
  unfoldable pub consume : String → ℕ → Uuid → M JoinInfo
  unfolding invalidate exec
  consume connect_id now session_id = do
    invalidate connect_id
    exec (activate session_id now) (failure "activate session")
    token ←
        or_fail (D.issue_signaling (uuids.to_text session_id) phone)
          (failure "issue signaling token")
    ret (record {
      session_id = session_id;
      room = uuids.to_text session_id;
      signaling_token = token;
      ice_servers = D.ice_servers now (uuids.to_text session_id);
    })

  -- Redeem after its GET has returned the token's text.
  unfoldable pub redeem_loaded : String → String → ℕ → String → M JoinInfo
  redeem_loaded connect_id pin now raw = do
    attempts ← track_attempt connect_id
    check_limit connect_id attempts
    session_id ← verify pin raw
    consume connect_id now session_id

  unfoldable pub redeem : String → String → ℕ → M JoinInfo
  redeem connect_id pin now = do raw ← load_token connect_id; redeem_loaded connect_id pin now raw

  -- Two concurrent requests with the same PIN, in the order in which both GETs come first.
  unfoldable pub redeem_both : String → String → ℕ → ℕ → M (JoinInfo × JoinInfo)
  redeem_both connect_id pin now later = do
    raw ← load_token connect_id
    raw' ← load_token connect_id
    first ← redeem_loaded connect_id pin now raw
    second ← redeem_loaded connect_id pin later raw'
    ret (first, second)
