-- ===== src/Server/Startup.antt =====
-- backend/cmd/server/main.go: run, up to the router that the server listens with. Whether the store
-- opens is an argument; the migrations are those of Store, the configuration that of Config.
pub mod Launching
pub mod Limits
use ar_app.Base.{
  ℕ, Bool, true, false, Option, none, some, List, [], ◌∷◌, String, ◌==◌, string_eq, if◌then◌else◌,
}
use ar_app.Base.Int.{ℤ}
use ar_app.Config.{Environment, Config, Result, ok, invalid_duration, load, recordings_enabled}
use ar_app.Ratelimit.{Net, Limiter, TrustedProxies, parse_trusted_proxies}
use ar_app.Recordings.Presigner.{S3Presigner, new_s3_presigner}
use ar_app.Router.{Deps}
use ar_app.Store.{Database, Directory, Fault, Error, Answer, migrate}

-- Why run returns before it listens.
pub data Failure : Type 0 where
  configuration : String → String → Failure
  store : Failure
  migration : Error → Failure
  trusted_proxies object_storage : Failure

-- time.Minute
abbrev pub minute : ℕ
minute = 60000000000

-- A limiter of so many events in a minute.
abbrev pub per_minute : ℕ → Option Limiter
per_minute max = some (record { max = max; window = minute })

abbrev pub is_some : {A : Type 0} → Option A → Bool
is_some none = false
is_some (some x) = true

module _ (N : Net) where
  -- What the server listens with: the configuration, the dependencies of the router, the proxies that the
  -- limiters trust, whether messages are fanned out over Redis, and the presigner if there is one.
  pub record App : Type 0 where
    pub config : Config
    pub deps : Deps
    pub proxies : TrustedProxies N
    pub fans_out : Bool
    pub presigner : Option S3Presigner

  pub data Launch : Type 0 where
    stopped : Failure → Launch
    listens : App → Launch

  unfoldable pub wired : Config → TrustedProxies N → Option S3Presigner → App
  wired cfg proxies presigner = record {
    config = cfg;
    deps = record {
      readiness = true;
      recordings = is_some presigner;
      register_limiter = per_minute 5;
      auth_limiter = per_minute 10;
      redeem_limiter = per_minute 20;
    };
    proxies = proxies;
    fans_out = cfg.signaling_fanout == "redis";
    presigner = presigner;
  }

  abbrev pub with_presigner : Config → TrustedProxies N → Option S3Presigner → Launch
  with_presigner cfg proxies none = stopped object_storage
  with_presigner cfg proxies (some p) = listens (wired cfg proxies (some p))

  abbrev pub with_storage : Config → TrustedProxies N → Launch
  with_storage cfg proxies =
      if recordings_enabled cfg
      then with_presigner cfg proxies (
          new_s3_presigner cfg.s3_endpoint cfg.s3_access_key cfg.s3_secret_key cfg.s3_bucket
            cfg.s3_region cfg.s3_use_ssl)
      else listens (wired cfg proxies none)

  abbrev pub with_proxies : Config → Option (TrustedProxies N) → Launch
  with_proxies cfg none = stopped trusted_proxies
  with_proxies cfg (some proxies) = with_storage cfg proxies

  module _ {Data : Type 0} where
    abbrev pub with_migrations : Config → Answer Data → Database Data × Launch
    with_migrations cfg (db, some e) = (db, stopped (migration e))
    with_migrations cfg (db, none) =
        (db, with_proxies cfg (parse_trusted_proxies N cfg.trusted_proxy_cidrs))

    -- Whether the store opens, and the call of Migrate.
    abbrev pub with_config :
        Bool
        → (Database Data → Answer Data)
        → Database Data
        → Result Config
        → Database Data × Launch
    with_config opens migrates db (invalid_duration key v) = (db, stopped (configuration key v))
    with_config false migrates db (ok cfg) = (db, stopped store)
    with_config true migrates db (ok cfg) = with_migrations cfg (migrates db)

    module _ (parse_duration : String → Option ℤ) (atoi : String → Option ℤ) where
      unfoldable pub startup :
          Environment
          → Bool
          → (Database Data → Answer Data)
          → Database Data
          → Database Data × Launch
      startup env opens migrates db = with_config opens migrates db (load parse_duration atoi env)
