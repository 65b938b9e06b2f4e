-- ===== src/Ratelimit/Clients.antt =====
-- Whose request it is that a limiter sees, apart from how the code finds it out.
use ar_app.Base.{
  ◌≡◌, ◌≢◌, ◌⊎◌, inl, inr, true, false, none, some, List, ◌∷◌, String, string_eq, arith, any,
}
use ar_app.Ratelimit.{Net, Sender, TrustedProxies, trusts, host_of, is_trusted, client_ip}

module _ (N : Net) (proxies : TrustedProxies N) where
  -- The host is an address in a range of the proxies.
  abbrev pub IsProxy : String → Type 0
  IsProxy host =
      (address : N.Ip) × (N.parse_ip host ≡ some address)
      × (any (λ n. N.contains n address) proxies ≡ true)

  abbrev pub IsStranger : String → Type 0
  IsStranger host =
      (N.parse_ip host ≡ none)
      ⊎ ((address : N.Ip) × (N.parse_ip host ≡ some address)
          × (any (λ n. N.contains n address) proxies ≡ false))

  -- The client of a connection from a host and a port: the host, or the first address that a trusted
  -- proxy forwards.
  pub data IsFrom (r : Sender) : String → Type 0 where
    direct :
        (host : String)
        → N.split_host_port r.remote_addr ≡ some host
        → IsStranger host
        → IsFrom r host
    own :
        (host : String)
        → N.split_host_port r.remote_addr ≡ some host
        → IsProxy host
        → r.forwarded_for ≡ ""
        → IsFrom r host
    forwarded :
        (host first : String) (rest : List String)
        → N.split_host_port r.remote_addr ≡ some host
        → IsProxy host
        → r.forwarded_for ≢ ""
        → N.split_commas r.forwarded_for ≡ first ∷ rest
        → N.trim_space first ≢ ""
        → IsFrom r (N.trim_space first)

  pub host_split : (addr host : String) → N.split_host_port addr ≡ some host → host_of N addr ≡ host
  host_split addr host e = ground (arith, e)

  stranger_untrusted : (host : String) → IsStranger host → is_trusted N proxies host ≡ false
  unfolding trusts
  stranger_untrusted host (inl e) = ground (arith, e)
  stranger_untrusted host (inr (address, e, out)) = ground (arith, e, out)

  proxy_trusted : (host : String) → IsProxy host → is_trusted N proxies host ≡ true
  unfolding trusts
  proxy_trusted host (address, e, within) = ground (arith, e, within)

  pub client_ip-IsFrom : (r : Sender) (ip : String) → IsFrom r ip → client_ip N proxies r ≡ ip
  unfolding client_ip
  client_ip-IsFrom r ip (direct host e s) =
      ground (arith, host_split r.remote_addr host e, stranger_untrusted host s)
  client_ip-IsFrom r ip (own host e p blank) = ground (
    arith,
    host_split r.remote_addr host e,
    proxy_trusted host p,
    (string_eq.beq_iff r.forwarded_for "").1 blank,
  )
  client_ip-IsFrom r ip (forwarded host first rest e p given split ne) = ground (
    arith,
    host_split r.remote_addr host e,
    proxy_trusted host p,
    given,
    split,
    ne,
    string_eq.beq_iff r.forwarded_for "",
    string_eq.beq_iff (N.trim_space first) "",
  )
