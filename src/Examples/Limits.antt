-- ===== src/Examples/Limits.antt =====
-- Runs of the limiter and of the client address.
use ar_app.Base.{◌≢◌, none, some, [], ◌∷◌, String, ◌==◌, nat_eq, string_eq, if◌then◌else◌}
use ar_app.Ratelimit.{Net}

-- Addresses and ranges as texts; a range contains the address that it names.
pub one_part : (s : String) → s ∷ [] ≢ []
one_part s h = cc

abbrev pub net : Net
net = record {
  Ip = String;
  IpNet = String;
  parse_ip = λ s. if s == "" then none else some s;
  parse_cidr = λ s. some s;
  contains = λ range ip. range == ip;
  split_host_port = λ s. some s;
  split_commas = λ s. s ∷ [];
  split_commas_some = one_part;
  trim_space = λ s. if s == " " then "" else s;
}
