-- ===== src/Router/Status/Agreement.antt =====
-- When the status that is logged and counted is the one that the client gets.
use ar_app.Base.{ℕ, ◌≡◌, refl, ap, Bool, true, false, some, List, [], ◌∷◌, ◌++◌, String, string_eq}
use ar_app.Router.Status.{
  Write, header, body, hijack, Writers, write_all, new_writers, status_sent, Metrics, serve,
}

-- A body that comes first is not followed by a header, and the connection is not taken over.
abbrev pub no_header : List Write → Bool
no_header [] = true
no_header (header code ∷ rest) = false
no_header (body text ∷ rest) = no_header rest
no_header (hijack code ∷ rest) = false

abbrev pub is_orderly : List Write → Bool
is_orderly (body text ∷ rest) = no_header rest
is_orderly (hijack code ∷ rest) = false
is_orderly _ = true

-- The writers agree once a header was written.
record Agree (w : Writers) : Type 0 where
  logged : w.logger.status ≡ status_sent w.sent
  recorded : w.recorder.status ≡ status_sent w.sent

late_header :
    (writes : List Write) (text : String)
    → no_header writes ≡ true
    → write_all (writes ++ header 500 ∷ body text ∷ []) (record new_writers { sent = some 200 })
      ≡ record {
        logger = record { status = 500; wrote_header = true };
        recorder = record { status = 500; wrote_header = true };
        sent = some 200;
      }
unfolding write_all
late_header [] text h = refl
late_header (header code ∷ rest) text h = absurd (cc h)
late_header (body more ∷ rest) text h = late_header rest text h
late_header (hijack code ∷ rest) text h = absurd (cc h)

-- A connection that is taken over, as the upgrade to a WebSocket does, is counted and logged as 200,
-- whatever status, such as 101, was sent on it.
pub serve_hijack :
    (method pattern : String) (code : ℕ) (m : Metrics)
    → ((serve method pattern (record { writes = hijack code ∷ []; panics = false }) m).1 ≡ 200)
      × ((serve method pattern (record { writes = hijack code ∷ []; panics = false }) m).2 ≡ code)
unfolding serve write_all
serve_hijack method pattern code m = (refl, refl)

-- A handler that panics after it has begun a body without a header is counted and logged as 500, while the
-- client gets 200.
pub serve_panic :
    (method pattern text : String) (rest : List Write) (m : Metrics)
    → no_header rest ≡ true
    → ((serve method pattern (record { writes = body text ∷ rest; panics = true }) m).1 ≡ 500)
      × ((serve method pattern (record { writes = body text ∷ rest; panics = true }) m).2 ≡ 200)
unfolding serve write_all
serve_panic method pattern text rest m h = (
  ap (λ w. w.logger.status) (late_header rest "internal error" h),
  ap (λ w. status_sent w.sent) (late_header rest "internal error" h),
)
