-- ===== src/Server/Startup/Launching.antt =====
-- When the server listens, and with what.
use ar_app.Base.{
  ◌≡◌, inl, inr, refl, sym, subst, Bool, true, false, Option, none, some, String, string_eq, arith,
  Bool-cases, Option-cases,
}
use ar_app.Base.Int.{ℤ}
use ar_app.Config.{Environment, Config, Result, ok, invalid_duration, load, recordings_enabled}
use ar_app.Ratelimit.{Net, TrustedProxies, parse_trusted_proxies}
use ar_app.Recordings.Presigner.{S3Presigner, new_s3_presigner}
use ar_app.Store.{Database, Answer}
use ar_app.Server.Startup.{
  App, listens, wired, is_some, with_presigner, with_storage, with_migrations, with_config, startup,
}

module _ (N : Net) where
  -- The launch is one with this configuration and these proxies.
  abbrev pub Serves : Config → TrustedProxies N → App N → Type 0
  Serves cfg proxies app =
      (app.config ≡ cfg)
      × (app.proxies ≡ proxies)
      × (is_some app.presigner ≡ recordings_enabled cfg)
      × (app ≡ wired N app.config app.proxies app.presigner)

  presigner-Serves :
      (cfg : Config) (proxies : TrustedProxies N) (p : Option S3Presigner) (app : App N)
      → with_presigner N cfg proxies p ≡ listens app
      → recordings_enabled cfg ≡ true
      → Serves cfg proxies app
  unfolding wired
  presigner-Serves cfg proxies none app h on = absurd (cc h)
  presigner-Serves cfg proxies (some p) app h on =
      let same : wired N cfg proxies (some p) ≡ app = cc h in
      subst (λ a. Serves cfg proxies a) same (refl, refl, sym on, refl)

  storage-Serves :
      (cfg : Config) (proxies : TrustedProxies N) (app : App N)
      → with_storage N cfg proxies ≡ listens app
      → Serves cfg proxies app
  unfolding wired
  storage-Serves cfg proxies app h = elim (Bool-cases (recordings_enabled cfg)) [
    | inl on ↦
        presigner-Serves cfg proxies
          (new_s3_presigner cfg.s3_endpoint cfg.s3_access_key cfg.s3_secret_key cfg.s3_bucket
            cfg.s3_region cfg.s3_use_ssl)
          app (ground (arith, h, on)) on
    | inr off ↦
        let same : wired N cfg proxies none ≡ app = ground (arith, h, off) in
        subst (λ a. Serves cfg proxies a) same (refl, refl, sym off, refl)
  ]

  module _ {Data : Type 0} where
    -- What a launch has been through, from the result of Load on.
    abbrev pub Launched :
        Result Config
        → Bool
        → (Database Data → Answer Data)
        → Database Data
        → Database Data
        → App N
        → Type 0
    Launched r opens migrates db db' app =
        (r ≡ ok app.config)
        × (opens ≡ true)
        × (migrates db ≡ (db', none))
        × (parse_trusted_proxies N app.config.trusted_proxy_cidrs ≡ some app.proxies)
        × (is_some app.presigner ≡ recordings_enabled app.config)
        × (app ≡ wired N app.config app.proxies app.presigner)

    migrated :
        (cfg : Config) (a : Answer Data) (db' : Database Data) (app : App N)
        → with_migrations N cfg a ≡ (db', listens app)
        → (a ≡ (db', none))
          × (proxies : TrustedProxies N) × (parse_trusted_proxies N cfg.trusted_proxy_cidrs
              ≡ some proxies)
          × Serves cfg proxies app
    migrated cfg (db, some e) db' app h = absurd (cc h)
    migrated cfg (db, none) db' app h =
        elim (Option-cases (parse_trusted_proxies N cfg.trusted_proxy_cidrs)) [
          | inl bad ↦ absurd (ground (arith, h, bad))
          | inr (proxies, parsed) ↦
              (cc h, proxies, parsed, storage-Serves cfg proxies app (cc (h, parsed)))
        ]

    configured :
        (r : Result Config) (opens : Bool) (migrates : Database Data → Answer Data)
        (db db' : Database Data) (app : App N)
        → with_config N opens migrates db r ≡ (db', listens app)
        → Launched r opens migrates db db' app
    configured (invalid_duration key v) opens migrates db db' app h = absurd (cc h)
    configured (ok cfg) false migrates db db' app h = absurd (cc h)
    configured (ok cfg) true migrates db db' app h =
        let (done, proxies, parsed, serves) = migrated cfg (migrates db) db' app h in
        let (same_cfg, same_proxies, stored, same) = serves in
        (cc same_cfg, refl, done, cc (same_cfg, same_proxies, parsed), cc (stored, same_cfg), same)

    -- The server listens only after the configuration is read, the store is open, every migration has
    -- succeeded and the ranges of the proxies are parsed; it listens with those proxies, and has a presigner
    -- exactly if an object storage is configured.
    pub startup_listens :
        (parse_duration : String → Option ℤ) (atoi : String → Option ℤ) (env : Environment)
        (opens : Bool) (migrates : Database Data → Answer Data) (db db' : Database Data)
        (app : App N)
        → startup N parse_duration atoi env opens migrates db ≡ (db', listens app)
        → Launched (load parse_duration atoi env) opens migrates db db' app
    unfolding startup
    startup_listens parse_duration atoi env opens migrates db db' app h =
        configured (load parse_duration atoi env) opens migrates db db' app h
