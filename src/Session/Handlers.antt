-- ===== src/Session/Handlers.antt =====
-- backend/internal/session/handlers.go: Mint and Redeem over HTTP.
pub mod Statuses
use ar_app.Base.{ℕ, ◌||◌, Bool, Option, none, some, List, String, ◌==◌, string_eq, if◌then◌else◌}
use ar_app.Platform.Uuid.{Uuid}
use ar_app.Auth.{Principal}
use ar_app.Turn.{IceServer}
use ar_app.Identity.Handlers.{Response, refused, answered, Body, malformed, body, Caller}
use ar_app.Session.Service.{
  Token, JoinInfo, Deps, Error, invalid_token, too_many_attempts, failure, Result, ok, err, World,
  redeem,
}
use ar_app.Session.Mint.{mint}

-- The body of the answer to Mint.
pub record Minted : Type 0 where
  pub token : Token
  pub room : String
  pub ice_servers : List IceServer

pub record RedeemRequest : Type 0 where
  pub connect_id : String
  pub pin : String

module _ (D : Deps) where
  abbrev minted : ℕ → World D × Result Token → World D × Response Minted
  minted now (w, err e) = (w, refused 500 "could not mint token")
  minted now (w, ok t) = (
    w,
    answered 201 (record {
      token = t;
      room = D.uuids.to_text t.session_id;
      ice_servers = D.ice_servers now (D.uuids.to_text t.session_id);
    }),
  )

  -- Handlers.Mint
  unfoldable pub serve_mint : ℕ → Caller → World D → World D × Response Minted
  serve_mint now none w = (w, refused 401 "unauthenticated")
  serve_mint now (some p) w =
      if p.role == "viewer"
      then (w, refused 403 "viewers cannot start sessions")
      else minted now (mint D p.org_id p.user_id now w)

  abbrev pub redeem_error : Error → Response JoinInfo
  redeem_error too_many_attempts = refused 429 "too many attempts"
  redeem_error invalid_token = refused 401 "invalid or expired token"
  redeem_error (failure step) = refused 500 "redeem failed"

  abbrev joined : World D × Result JoinInfo → World D × Response JoinInfo
  joined (w, ok info) = (w, answered 200 info)
  joined (w, err e) = (w, redeem_error e)

  -- Handlers.Redeem
  unfoldable pub serve_redeem : ℕ → Body RedeemRequest → World D → World D × Response JoinInfo
  serve_redeem now (malformed message) w = (w, refused 400 message)
  serve_redeem now (body r) w =
      if r.connect_id == "" || r.pin == ""
      then (w, refused 400 "connect_id and pin are required")
      else joined (redeem D r.connect_id r.pin now w)
