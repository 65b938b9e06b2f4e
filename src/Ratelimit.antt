-- ===== src/Ratelimit.antt =====
-- backend/internal/ratelimit/ratelimit.go: the fixed-window limiter, and the client address that it
-- counts by.
pub mod Window
pub mod Address
pub mod Clients
use ar_app.Base.{
  ℕ, ◌≡◌, ◌≢◌, Bool, true, false, ◌||◌, Option, none, some, List, [], ◌∷◌, ◌++◌, String, ◌==◌,
  string_eq, nat_eq, leb, any, if◌then◌else◌,
}
use Prim.Native.String
use ar_app.Platform.Redis.{Redis, Reply, failed, reply}

-- The net package on addresses: ParseIP, ParseCIDR and Contains.
pub record Net : Type 1 where
  pub Ip : Type 0
  pub IpNet : Type 0
  pub parse_ip : String → Option Ip
  pub parse_cidr : String → Option IpNet
  pub contains : IpNet → Ip → Bool
  -- SplitHostPort without the port.
  pub split_host_port : String → Option String
  -- strings.Split at commas, and strings.TrimSpace.
  pub split_commas : String → List String
  pub split_commas_some : (s : String) → split_commas s ≢ []
  pub trim_space : String → String

pub record Limiter : Type 0 where
  pub max : ℕ
  pub window : ℕ

-- The limiter's store is Redis; the second part tells whether the event is allowed.
module _ (R : Redis) where
  unfoldable pub allow : Limiter → String → R.Store → R.Store × Bool
  allow l key s =
      let (s', r) = R.incr s key in
      elim r [
        | failed ↦ (s', true)
        | reply n ↦ (if n == 1 then (R.expire s' key l.window).0 else s', leb n l.max)
      ]

-- What a request shows of its sender.
pub record Sender : Type 0 where
  pub remote_addr : String
  pub forwarded_for : String

module _ (N : Net) where
  abbrev pub TrustedProxies : Type 0
  TrustedProxies = List N.IpNet

  -- The loop of ParseTrustedProxies; an invalid range is the error.
  unfoldable pub parse_ranges : List String → Option TrustedProxies
  parse_ranges [] = some []
  parse_ranges (s ∷ rest) =
      let later = parse_ranges rest in
      if N.trim_space s == "" then later else elim (N.parse_cidr (N.trim_space s)) [
        | none ↦ none
        | some range ↦ elim later [ none ↦ none | some ranges ↦ some (range ∷ ranges) ]
      ]

  unfoldable pub parse_trusted_proxies : String → Option TrustedProxies
  unfolding parse_ranges
  parse_trusted_proxies cidrs = parse_ranges (N.split_commas cidrs)

  unfoldable pub trusts : TrustedProxies → N.Ip → Bool
  trusts nets ip = any (λ n. N.contains n ip) nets

  -- `parts[0]` of a split, which is never empty.
  abbrev first_of_list : List String → String
  first_of_list [] = ""
  first_of_list (x ∷ xs) = x

  -- The host of the connection.
  abbrev pub host_of : String → String
  host_of addr = elim (N.split_host_port addr) [ none ↦ addr | some host ↦ host ]

  -- `net.ParseIP(host)` is an address that is trusted.
  abbrev pub is_trusted : TrustedProxies → String → Bool
  is_trusted nets host = elim (N.parse_ip host) [ none ↦ false | some ip ↦ trusts nets ip ]

  -- The first address of the header, trimmed.
  abbrev pub first_forwarded : String → String
  first_forwarded header = N.trim_space (first_of_list (N.split_commas header))

  unfoldable pub client_ip : TrustedProxies → Sender → String
  client_ip nets r =
      let host = host_of r.remote_addr in
      if is_trusted nets host
      then (if r.forwarded_for == ""
          then host
          else if first_forwarded r.forwarded_for == ""
          then host
          else first_forwarded r.forwarded_for)
      else host

  -- The key under which Middleware counts a request.
  abbrev pub key_of : String → TrustedProxies → Sender → String
  key_of prefix nets r = String.◌++◌ (String.◌++◌ prefix ":") (client_ip nets r)

  -- Middleware: whether the request goes on to the next handler; else the answer is 429.
  unfoldable pub admits :
      (R : Redis) → Limiter → String → TrustedProxies → Sender → R.Store → R.Store × Bool
  admits R l prefix nets r s = allow R l (key_of prefix nets r) s
