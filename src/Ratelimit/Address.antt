-- ===== src/Ratelimit/Address.antt =====
-- Which address a request is counted by.
use ar_app.Base.{◌≡◌, refl, false, some, List, [], ◌∷◌, String, string_eq, arith, All}
use ar_app.Ratelimit.{
  Net, Sender, TrustedProxies, parse_ranges, parse_trusted_proxies, trusts, host_of, is_trusted,
  client_ip,
}

module _ (N : Net) where
  -- From a connection that is not a trusted proxy's, the header has no say: the address is the
  -- connection's own, whatever X-Forwarded-For holds.
  untrusted_ignores_header :
      (nets : TrustedProxies N) (r : Sender)
      → is_trusted N nets (host_of N r.remote_addr) ≡ false
      → client_ip N nets r ≡ host_of N r.remote_addr
  unfolding client_ip
  untrusted_ignores_header nets r h = ground arith

  blank_ranges :
      (parts : List String) → All (λ p. N.trim_space p ≡ "") parts → parse_ranges N parts ≡ some []
  unfolding parse_ranges
  blank_ranges [] h = refl
  blank_ranges (p ∷ rest) h =
      ground (arith, blank_ranges rest h.1, string_eq.beq_iff (N.trim_space p) "")

  no_proxies : (host : String) → is_trusted N [] host ≡ false
  unfolding trusts
  no_proxies host = ground arith

  -- A configuration with nothing but blanks between its commas parses, and trusts nobody: every
  -- request is counted by the address of its connection.
  pub blank_trusts_nobody :
      (cidrs : String)
      → All (λ p. N.trim_space p ≡ "") (N.split_commas cidrs)
      → (nets : TrustedProxies N) × (parse_trusted_proxies N cidrs ≡ some nets)
        × ((r : Sender) → client_ip N nets r ≡ host_of N r.remote_addr)
  unfolding parse_trusted_proxies
  blank_trusts_nobody cidrs h = (
    [],
    blank_ranges (N.split_commas cidrs) h,
    λ r. untrusted_ignores_header [] r (no_proxies (host_of N r.remote_addr)),
  )
