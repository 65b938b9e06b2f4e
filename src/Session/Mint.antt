-- ===== src/Session/Mint.antt =====
-- backend/internal/session/service.go: randomDigits and Mint.
pub mod Minted
use ar_app.Base.{ℕ, zero, suc, ◌+◌, Bool, true, false, Option, none, some, List, String}
use Prim.Native.String
use ar_app.Platform.Uuid.{Uuid}
use ar_app.Platform.Redis.{Redis}
use ar_app.Signaling.Role.{agent}
use ar_app.Session.Table.{insert_pending, delete_session}
use ar_app.Session.Service.{
  TokenRecord, Token, Deps, failure, Result, ok, err, token_key, connect_id_digits, pin_digits,
  digit_text, World, M, ◌>>=◌, ◌>>◌, ret, fail, or_fail, exec, hash_pin, from_reply,
}

abbrev pub mint_tries : ℕ
mint_tries = 5

module _ (D : Deps) where
  open D use {redis, uuids, ttl}

  -- The loop of randomDigits.
  unfoldable pub random_digits : ℕ → D.Rand → Option (String × D.Rand)
  random_digits zero r = some ("", r)
  random_digits (suc n) r = elim (D.rand_int r 10) [
    | none ↦ none
    | some (idx, r') ↦ elim (random_digits n r') [
      | none ↦ none
      | some (rest, r'') ↦ some (String.◌++◌ (digit_text idx) rest, r'')
    ]
  ]

  unfoldable pub digits : ℕ → M D String
  digits n w = elim (random_digits n w.rand) [
    | none ↦ (w, err (failure "random"))
    | some (text, r) ↦ (record w { rand = r }, ok text)
  ]

  -- INSERT … RETURNING id
  unfoldable pub insert_session : Uuid → Uuid → String → ℕ → M D Uuid
  insert_session org_id agent_id connect_id now w =
      let id = D.new_id w.sessions in
      ◌>>◌ D (exec D (insert_pending id org_id agent_id connect_id now) (failure "create session"))
        (ret D id) w

  abbrev pub record_of : Uuid → Uuid → Uuid → String → TokenRecord
  record_of session_id org_id agent_id pin = record {
    session_id = uuids.to_text session_id;
    org_id = uuids.to_text org_id;
    agent_id = uuids.to_text agent_id;
    pin_hash = hash_pin D pin;
  }

  -- SET NX of the token.
  unfoldable pub store_token : String → TokenRecord → M D Bool
  store_token connect_id rec w =
      let (s, r) = redis.set_nx w.store (token_key connect_id) (D.encode rec) ttl in
      (record w { store = s }, from_reply D r (failure "store token"))

  -- The roll-back of an orphaned session; its error is dropped.
  abbrev ignore : World D × Result (Unit {0}) → World D × Result (Unit {0})
  ignore r = (r.0, ok tt)

  unfoldable pub roll_back : Uuid → M D (Unit {0})
  roll_back id w = ignore (exec D (delete_session id) (failure "roll back") w)

  unfoldable pub finish : String → String → ℕ → Uuid → M D Token
  finish connect_id pin now session_id =
      ◌>>=◌ D
        (or_fail D (D.issue_signaling (uuids.to_text session_id) agent)
          (failure "issue signaling token"))
        λ token. ret D (record {
          session_id = session_id;
          connect_id = connect_id;
          pin = pin;
          expires_at = now + ttl;
          signaling_token = token;
        })

  -- What follows the SET NX: the token, or the roll-back and the next round.
  unfoldable pub settle : Bool → M D Token → String → String → ℕ → Uuid → M D Token
  settle true retry connect_id pin now id = finish connect_id pin now id
  settle false retry connect_id pin now id = ◌>>◌ D (roll_back id) retry

  -- The loop over at most five connect ids.
  unfoldable pub mint_try : ℕ → Uuid → Uuid → String → ℕ → M D Token
  mint_try zero org_id agent_id pin now = fail D (failure "could not allocate a unique connect id")
  mint_try (suc tries) org_id agent_id pin now =
      let retry = mint_try tries org_id agent_id pin now in
      ◌>>=◌ D (digits connect_id_digits) λ connect_id.
        ◌>>=◌ D (insert_session org_id agent_id connect_id now) λ id.
          ◌>>=◌ D (store_token connect_id (record_of id org_id agent_id pin))
            λ stored. settle stored retry connect_id pin now id

  unfoldable pub mint : Uuid → Uuid → ℕ → M D Token
  unfolding mint_try
  mint org_id agent_id now =
      ◌>>=◌ D (digits pin_digits) λ pin. mint_try mint_tries org_id agent_id pin now
