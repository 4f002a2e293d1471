-- ===== src/ProxyRoute.antt =====
-- internal/proxyroute/proxyroute.go: the TProxy inbound of every proxy target.
pub mod Find
pub mod Named
use zakop.Prelude.{
  ℕ, zero, suc, ◌+◌, ◌-◌, Bool, true, false, List, [], ◌∷◌, ◌++◌, Option, none, some, ltb,
  if◌then◌else◌, length, replicate,
}
use zakop.Prelude.Int.{ℤ, pos, ◌+ℤ◌}
use zakop.Text.{Str, codes, str_eq, trim_space}
use zakop.Text.Number.{itoa}
use zakop.Config.Types.{Config}
use zakop.Config.Access.{proxy_target_tags}

pub record Target : Type 0 where
  pub tag : Str
  pub chain : Str
  pub inbound : Str
  pub port : ℤ

-- `%04d`.
abbrev pub four_digits : ℕ → Str
four_digits i = replicate (4 - length (itoa i)) b'0' ++ itoa i

abbrev pub target_of : ℤ → ℕ → Str → Target
target_of port i tag = record {
  tag = tag;
  chain = codes "to_proxy_" ++ four_digits i;
  inbound = codes "tproxy-" ++ (four_digits i ++ codes "-in");
  port = port +ℤ pos i;
}

-- The loop of `Targets` from the index `i`.
unfoldable pub targets_from : ℤ → ℕ → List Str → List Target
targets_from port i [] = []
targets_from port i (tag ∷ tags) = target_of port i tag ∷ targets_from port (suc i) tags

-- `Targets`.
unfoldable pub targets : Config → List Target
targets cfg = targets_from cfg.main.tproxy_port 0 (proxy_target_tags cfg)

abbrev pub first_with : Str → List Target → Option Target
first_with tag [] = none
first_with tag (t ∷ ts) = if str_eq t.tag tag then some t else first_with tag ts

-- `Find`.
unfoldable pub find : List Target → Str → Option Target
find ts tag = first_with (trim_space tag) ts
