-- ===== src/Config/Access.antt =====
-- internal/config/config.go: what the other components read off a configuration.
use zakop.Prelude.{
  Bool, true, false, not, ◌||◌, List, [], ◌∷◌, ◌++◌, Option, none, some, ◌==◌, if◌then◌else◌,
}
use zakop.Prelude.Int.{ℤ, pos, negsuc}
use zakop.Text.{Str, codes, str_eq, trim_space, to_lower}
use zakop.Config.Types.{Config, Main, Rule, Provider, Outbound, OutboundPool}

-- `strings.TrimSpace(s) == ""`.
unfoldable pub is_blank : Str → Bool
unfolding str_eq trim_space
is_blank s = str_eq (trim_space s) []

unfoldable pub first_non_empty : List Str → Str
first_non_empty [] = []
first_non_empty (v ∷ vs) = if not (is_blank v) then v else first_non_empty vs

unfoldable pub singbox_dns_fakeip_addr : Main → Str
unfolding first_non_empty is_blank
singbox_dns_fakeip_addr m =
    first_non_empty
      (trim_space m.singbox_dns_fakeip ∷ trim_space m.singbox_dns ∷ codes "127.0.0.1:15353" ∷ [])

unfoldable pub singbox_dns_real_direct_addr : Main → Str
unfolding first_non_empty is_blank
singbox_dns_real_direct_addr m =
    first_non_empty (trim_space m.singbox_dns_real_direct ∷ codes "127.0.0.1:15354" ∷ [])

unfoldable pub singbox_dns_real_proxy_addr : Main → Str
unfolding first_non_empty is_blank
singbox_dns_real_proxy_addr m =
    first_non_empty (trim_space m.singbox_dns_real_proxy ∷ codes "127.0.0.1:15355" ∷ [])

unfoldable pub enabled_outbounds : List Outbound → List Outbound
enabled_outbounds [] = []
enabled_outbounds (o ∷ os) = let rest = enabled_outbounds os in if o.enabled then o ∷ rest else rest

unfoldable pub enabled_custom_outbounds : Config → List Outbound
unfolding enabled_outbounds
enabled_custom_outbounds c = enabled_outbounds c.outbounds

unfoldable pub outbound_tags : List Outbound → List Str
outbound_tags [] = []
outbound_tags (o ∷ os) = o.tag ∷ outbound_tags os

-- The tags of the pools, trimmed, that are not empty.
unfoldable pub pool_tags : List OutboundPool → List Str
pool_tags [] = []
pool_tags (p ∷ ps) =
    let rest = pool_tags ps in if not (is_blank p.tag) then trim_space p.tag ∷ rest else rest

unfoldable pub proxy_target_tags : Config → List Str
unfolding enabled_custom_outbounds outbound_tags pool_tags is_blank
proxy_target_tags c = outbound_tags (enabled_custom_outbounds c) ++ pool_tags c.outbound_pools

find_pool : Str → List OutboundPool → Option OutboundPool
find_pool tag [] = none
find_pool tag (p ∷ ps) = if str_eq p.tag tag then some p else find_pool tag ps

unfoldable pub outbound_pool_by_tag : Config → Str → Option OutboundPool
unfolding find_pool str_eq trim_space
outbound_pool_by_tag c tag = find_pool (trim_space tag) c.outbound_pools

abbrev first_tag : List Outbound → List Str
first_tag [] = []
first_tag (o ∷ os) = o.tag ∷ []

unfoldable pub outbound_candidate_tags : Config → Str → List Str
unfolding outbound_pool_by_tag enabled_custom_outbounds
outbound_candidate_tags c tag = elim (outbound_pool_by_tag c (trim_space tag)) [
  | some p ↦ p.outbounds
  | none ↦
      if not (is_blank tag) then trim_space tag ∷ [] else first_tag (enabled_custom_outbounds c)
]

abbrev is_zero : ℤ → Bool
is_zero (pos n) = n == 0
is_zero (negsuc n) = false

unfoldable pub effective_simple_rule : Main → Rule
unfolding first_non_empty is_blank to_lower
effective_simple_rule m =
    let r = m.simple_rule in
    let action = to_lower (trim_space (first_non_empty (r.action ∷ codes "proxy" ∷ []))) in
    record r {
      name = if is_blank r.name then codes "simple" else r.name;
      enabled = true;
      priority = if is_zero r.priority then pos 100 else r.priority;
      action = action;
      dns_mode = to_lower (trim_space (first_non_empty (r.dns_mode ∷ codes "auto" ∷ [])));
      outbound = if not (str_eq action (codes "proxy")) then codes "direct" else r.outbound;
    }

unfoldable pub effective_rules : Config → List Rule
unfolding effective_simple_rule str_eq
effective_rules c =
    if not (str_eq c.main.routing_mode (codes "simple"))
    then c.rules
    else effective_simple_rule c.main ∷ []

find_provider : Str → List Provider → Option Provider
find_provider name [] = none
find_provider name (p ∷ ps) = if str_eq p.name name then some p else find_provider name ps

unfoldable pub provider_by_name : Config → Str → Option Provider
unfolding find_provider str_eq trim_space
provider_by_name c name = find_provider (trim_space name) c.providers

unfoldable pub reserved_custom_outbound_tag : Str → Bool
unfolding str_eq
reserved_custom_outbound_tag tag =
    str_eq tag (codes "direct")
    || str_eq tag (codes "blocked")
    || str_eq tag (codes "block")
    || str_eq tag (codes "proxy_default")
