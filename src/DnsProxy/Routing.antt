-- ===== src/DnsProxy/Routing.antt =====
-- internal/dnsproxy/dnsproxy.go: the proxy's state, the decision for a client and a name, the
-- local answers and the choice of an upstream.
use zakop.Prelude.{
  ℕ, Bool, true, false, not, ◌&&◌, List, [], ◌∷◌, Option, none, some, ◌==◌, if◌then◌else◌,
}
use zakop.Text.{Str, codes, str_eq, trim_space}
use zakop.Dict.{lookup, put, contains_text}
use zakop.Net.{IpAddr, ip4, ip6, ipv4_string, is_loopback, net_contains}
use zakop.Net.Parse.{parse_ip, parse_subnet}
use zakop.Policy.Cidr.{IpNet}
use zakop.Config.Types.{Config, Client, Rule}
use zakop.Config.Access.{
  effective_rules, singbox_dns_fakeip_addr, singbox_dns_real_direct_addr,
  singbox_dns_real_proxy_addr,
}
use zakop.RuleEngine.{Decision, direct_decision, domain_decision}
use zakop.DnsProxy.Message.{Bytes, Query, parse_query, nodata_response, nxdomain_response}
use zakop.DnsProxy.Edns.{client_subnet_ipv4}

-- `Proxy` without the pools of forwards and the timeout. `local_ips` are the texts that
-- `localInterfaceIPs` reads from the system; `lan_subnets` are the networks as `IPNet.Contains` reads
-- them for addresses of IPv4.
pub record Proxy : Type 0 where
  pub listen : Str
  pub fake_upstream : Str
  pub real_direct_upstream : Str
  pub real_proxy_upstream : Str
  pub real_dns_mode : Str
  pub routing_mode : Str
  pub client_policies : List (Str × Str)
  pub lan_subnets : List IpNet
  pub local_ips : List Str
  pub rules : List Rule
  pub filter_aaaa_for_fakeip : Bool

-- The loop over the clients: a later client with the same address replaces the policy.
policies_onto : List (Str × Str) → List Client → List (Str × Str)
policies_onto m [] = m
policies_onto m (c ∷ cs) = policies_onto (put c.ip c.policy m) cs

parsed_subnets : List Str → List IpNet
parsed_subnets [] = []
parsed_subnets (raw ∷ raws) =
    let rest = parsed_subnets raws in
    elim (parse_subnet raw) [ none ↦ rest | some subnet ↦ subnet ∷ rest ]

-- `New`, from the addresses of the system.
unfoldable pub new_proxy : Config → List Str → Proxy
unfolding policies_onto parsed_subnets parse_subnet effective_rules singbox_dns_fakeip_addr
    singbox_dns_real_direct_addr singbox_dns_real_proxy_addr
new_proxy cfg system_ips = record {
  listen = cfg.main.dns_listen;
  fake_upstream = singbox_dns_fakeip_addr cfg.main;
  real_direct_upstream = singbox_dns_real_direct_addr cfg.main;
  real_proxy_upstream = singbox_dns_real_proxy_addr cfg.main;
  real_dns_mode = cfg.main.real_dns_mode;
  routing_mode = cfg.main.routing_mode;
  client_policies = policies_onto [] cfg.clients;
  lan_subnets = parsed_subnets cfg.main.lan_subnets;
  local_ips = system_ips;
  rules = effective_rules cfg;
  filter_aaaa_for_fakeip = cfg.main.filter_aaaa_for_fakeip;
}

any_contains : List IpNet → ℕ → Bool
any_contains [] a = false
any_contains (n ∷ ns) a = if net_contains n a then true else any_contains ns a

-- The test of `isLANClient` on a parsed address.
lan_address : Proxy → IpAddr → Bool
lan_address p (ip6 gs) = false
lan_address p (ip4 a) =
    if is_loopback (ip4 a)
    then false
    else if contains_text p.local_ips (ipv4_string a)
    then false
    else any_contains p.lan_subnets a

unfoldable pub is_lan_client : Proxy → Str → Bool
unfolding lan_address contains_text any_contains
is_lan_client p client_ip = elim p.lan_subnets [
  | [] ↦ true
  | _ ∷ _ ↦ elim (parse_ip (trim_space client_ip)) [ none ↦ false | some ip ↦ lan_address p ip ]
]

abbrev policy_or_default : Option Str → Str
policy_or_default none = codes "default"
policy_or_default (some []) = codes "default"
policy_or_default (some (c ∷ s)) = c ∷ s

unfoldable pub client_policy : Proxy → Str → Str
client_policy p client_ip = policy_or_default (lookup client_ip p.client_policies)

-- `Proxy.domainDecision`.
unfoldable pub client_decision : Proxy → Str → Str → Decision
client_decision p name client_ip =
    if not (is_lan_client p client_ip)
    then direct_decision
    else if str_eq (client_policy p client_ip) (codes "direct")
    then direct_decision
    else if str_eq p.routing_mode (codes "global")
    then direct_decision
    else domain_decision p.rules name

abbrev pub is_fake : Decision → Bool
is_fake d = str_eq d.action (codes "proxy") && str_eq d.dns_mode (codes "fakeip")

unfoldable pub use_fake_upstream : Proxy → Bytes → Str → Bool
use_fake_upstream p msg client_ip = elim (parse_query msg) [
  | none ↦ false
  | some q ↦ is_fake (client_decision p q.name client_ip)
]

unfoldable pub upstream_for : Proxy → Bytes → Str → Str
upstream_for p msg client_ip =
    if use_fake_upstream p msg client_ip
    then p.fake_upstream
    else if str_eq p.real_dns_mode (codes "proxy")
    then p.real_proxy_upstream
    else p.real_direct_upstream

-- What `localResponse` makes of a question and its decision.
unfoldable pub local_answer : Proxy → Bytes → Query → Decision → Option Bytes
local_answer p msg q d =
    if str_eq d.action (codes "block")
    then some (nxdomain_response msg q.question_end)
    else if p.filter_aaaa_for_fakeip && q.type == 28 && is_fake d
    then some (nodata_response msg q.question_end)
    else none

unfoldable pub local_response : Proxy → Bytes → Str → Option Bytes
local_response p msg client_ip = elim (parse_query msg) [
  | none ↦ none
  | some q ↦ local_answer p msg q (client_decision p q.name client_ip)
]

-- `Proxy.clientIP`.
unfoldable pub client_ip_of : Proxy → Bytes → Str → Str
client_ip_of p msg src =
    let from_option : Str = elim (client_subnet_ipv4 msg) [ [] ↦ src | c ∷ s ↦ c ∷ s ] in
    elim (parse_ip src) [
      | none ↦ from_option
      | some ip ↦ if not (is_loopback ip) then src else from_option
    ]
