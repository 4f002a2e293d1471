-- ===== src/Config/Parse.antt =====
-- internal/config/config.go: `Parse` from the sections down to the configuration that it validates.
use zakop.Prelude.{true, ◌&&◌, ◌||◌, List, [], ◌∷◌, ◌++◌, Option, none, some, if◌then◌else◌, length}
use zakop.Prelude.Int.{pos, ltb_ℤ}
use zakop.Text.{Str, codes, str_eq, trim_space}
use zakop.Dict.{contains_text}
use zakop.Policy.Parse.{parse_ipv4_cidr, cidr_string}
use zakop.Config.Types.{Config, Main, Rule, Client, Provider, Outbound, Subscription}
use zakop.Config.Access.{is_blank, enabled_custom_outbounds, reserved_custom_outbound_tag}
use zakop.Config.Lists.{is_empty}
use zakop.Config.Uci.{Section}
use zakop.Config.ApplyMain.{apply_main}
use zakop.Config.ParseOutbound.{parse_outbound, outbound_warnings}
use zakop.Config.ParseSection.{
  parse_rule, rule_warnings, parse_provider, parse_outbound_pool, parse_subscription, parse_client,
}

-- The simple rule of `Defaults`.
abbrev default_simple_rule : Rule
default_simple_rule = record {
  name = codes "simple";
  enabled = true;
  priority = pos 100;
  action = codes "proxy";
  outbound = [];
  dns_mode = codes "auto";
  domain_equals = [];
  domain_contains = [];
  domain_starts_with = [];
  domain_ends_with = [];
  exclude_domain_equals = [];
  exclude_domain_contains = [];
  exclude_domain_starts_with = [];
  exclude_domain_ends_with = [];
  domain_files = [];
  ip_cidrs = [];
  files = [];
  domain_providers = [];
  ip_providers = [];
  providers = [];
  proto = [];
  src_ports = [];
  dst_ports = [];
}

-- `Defaults`.
unfoldable pub defaults : Config
defaults = record {
  main = record {
    enabled = true;
    dns_listen = codes "127.0.0.1:5353";
    real_dns_upstream = codes "1.1.1.1:53";
    real_dns_mode = codes "direct";
    real_dns_outbound = [];
    real_dns_transport = codes "udp";
    real_dns_server = codes "1.1.1.1";
    real_dns_server_port = pos 53;
    real_dns_server_name = codes "cloudflare-dns.com";
    real_dns_path = codes "/dns-query";
    dns_upstream_preset = codes "cloudflare";
    dns_upstream_protocol = codes "udp";
    dns_upstream_host = codes "1.1.1.1";
    dns_upstream_port = pos 53;
    dns_upstream_tls_name = codes "cloudflare-dns.com";
    dns_upstream_path = codes "/dns-query";
    manage_dnsmasq = true;
    filter_aaaa_for_fakeip = true;
    singbox_bin = codes "/usr/libexec/zakop/sing-box";
    singbox_dns = codes "127.0.0.1:15353";
    singbox_dns_fakeip = codes "127.0.0.1:15353";
    singbox_dns_real_direct = codes "127.0.0.1:15354";
    singbox_dns_real_proxy = codes "127.0.0.1:15355";
    pool_controller = codes "127.0.0.1:19090";
    tproxy_port = pos 16001;
    mark = codes "0x101";
    table = pos 101;
    fakeip_enabled = true;
    fakeip_range = codes "198.18.0.0/15";
    resolve_for_subnet_rules = true;
    nft_counters = true;
    default_action = codes "direct";
    routing_mode = codes "custom";
    default_outbound = codes "direct";
    update_via = codes "direct";
    update_outbound = [];
    simple_rule = default_simple_rule;
    lan_subnets = codes "192.168.8.0/24" ∷ [];
    lan_ifaces = [];
  };
  clients = [];
  rules = [];
  providers = [];
  outbounds = [];
  outbound_pools = [];
  subscriptions = [];
  warnings = [];
}

abbrev warned : Str → List Str
warned [] = []
warned (c ∷ w) = (c ∷ w) ∷ []

-- The `switch` of `Parse` for one section. `cfg.Outbounds = nil` at the first outbound removes
-- nothing, since `Defaults` has none.
unfoldable pub add_section : Config → Section → Config
add_section cfg s =
    if str_eq s.type (codes "main")
    then record cfg { main = apply_main cfg.main s }
    else if str_eq s.type (codes "client")
    then record cfg {
      clients = cfg.clients ++ ((parse_client s).0 ∷ []);
      warnings = cfg.warnings ++ warned (parse_client s).1;
    }
    else if str_eq s.type (codes "rule")
    then record cfg {
      rules = cfg.rules ++ (parse_rule s (length cfg.rules) ∷ []);
      warnings = cfg.warnings ++ rule_warnings s (length cfg.rules);
    }
    else if str_eq s.type (codes "provider")
    then record cfg { providers = cfg.providers ++ (parse_provider s ∷ []) }
    else if str_eq s.type (codes "outbound")
    then record cfg {
      outbounds = cfg.outbounds ++ (parse_outbound s ∷ []);
      warnings = cfg.warnings ++ outbound_warnings (parse_outbound s);
    }
    else if str_eq s.type (codes "outbound_pool")
    then record cfg { outbound_pools = cfg.outbound_pools ++ (parse_outbound_pool s ∷ []) }
    else if str_eq s.type (codes "subscription")
    then record cfg { subscriptions = cfg.subscriptions ++ (parse_subscription s ∷ []) }
    else cfg

unfoldable pub add_sections : Config → List Section → Config
add_sections cfg [] = cfg
add_sections cfg (s ∷ ss) = add_sections (add_section cfg s) ss

-- The loop of `assignFirstCustomOutbound` that finds the first tag that is not blank.
abbrev pub first_custom : List Outbound → Str
first_custom [] = []
first_custom (o ∷ os) =
    let rest = first_custom os in if is_empty (trim_space o.tag) then rest else trim_space o.tag

unfoldable pub assign_rule : Str → Rule → Rule
assign_rule first r =
    if str_eq r.action (codes "proxy")
      && (is_blank r.outbound || reserved_custom_outbound_tag r.outbound)
    then record r { outbound = first }
    else r

abbrev assign_rules : Str → List Rule → List Rule
assign_rules first [] = []
assign_rules first (r ∷ rs) = assign_rule first r ∷ assign_rules first rs

abbrev assign_clients : Str → List Client → List Client
assign_clients first [] = []
assign_clients first (c ∷ cs) =
    (if str_eq c.policy (codes "proxy") && is_blank c.outbound
      then record c { outbound = first }
      else c)
    ∷ assign_clients first cs

abbrev assign_providers : Str → List Provider → List Provider
assign_providers first [] = []
assign_providers first (p ∷ ps) =
    (if str_eq p.update_via (codes "proxy") && is_blank p.update_outbound
      then record p { update_outbound = first }
      else p)
    ∷ assign_providers first ps

abbrev assign_subscriptions : Str → List Subscription → List Subscription
assign_subscriptions first [] = []
assign_subscriptions first (p ∷ ps) =
    (if str_eq p.update_via (codes "proxy") && is_blank p.update_outbound
      then record p { update_outbound = first }
      else p)
    ∷ assign_subscriptions first ps

abbrev assign_main : Str → Main → Main
assign_main first m = record m {
  simple_rule =
      if str_eq m.routing_mode (codes "simple")
      then assign_rule first m.simple_rule
      else m.simple_rule;
  update_outbound =
      if str_eq m.update_via (codes "proxy") && is_blank m.update_outbound
      then first
      else m.update_outbound;
  real_dns_outbound =
      if str_eq m.real_dns_mode (codes "proxy") && is_blank m.real_dns_outbound
      then first
      else m.real_dns_outbound;
}

-- `assignFirstCustomOutbound`.
unfoldable pub assign_first_custom_outbound : Config → Config
assign_first_custom_outbound cfg =
    let first = first_custom (enabled_custom_outbounds cfg) in
    if is_empty first then cfg else record cfg {
      main = assign_main first cfg.main;
      rules = assign_rules first cfg.rules;
      clients = assign_clients first cfg.clients;
      providers = assign_providers first cfg.providers;
      subscriptions = assign_subscriptions first cfg.subscriptions;
    }

-- `sort.SliceStable` by the priority.
unfoldable pub insert_rule : Rule → List Rule → List Rule
insert_rule r [] = r ∷ []
insert_rule r (x ∷ xs) =
    let later = insert_rule r xs in if ltb_ℤ x.priority r.priority then x ∷ later else r ∷ x ∷ xs

unfoldable pub sort_rules : List Rule → List Rule
sort_rules [] = []
sort_rules (r ∷ rs) = insert_rule r (sort_rules rs)

-- The loop of `normalizeIPv4CIDRStrings`; `none` is the early return of the values.
unfoldable pub cidrs_from : List Str → List Str → Option (List Str)
cidrs_from seen [] = some []
cidrs_from seen (v ∷ vs) = elim (parse_ipv4_cidr v) [
  | none ↦ none
  | some net ↦
      let text = cidr_string net in
      let old = contains_text seen text in
      elim (cidrs_from (if old then seen else text ∷ seen) vs) [
        | none ↦ none
        | some rest ↦ some (if old then rest else text ∷ rest)
      ]
]

unfoldable pub normalize_ipv4_cidr_strings : List Str → List Str
normalize_ipv4_cidr_strings values = elim (cidrs_from [] values) [ none ↦ values | some out ↦ out ]

-- `Parse` behind `parseSections` and in front of `Validate`.
unfoldable pub config_of : List Section → Config
config_of sections =
    let cfg = assign_first_custom_outbound (add_sections defaults sections) in
    record cfg {
      rules = sort_rules cfg.rules;
      main = record cfg.main { lan_subnets = normalize_ipv4_cidr_strings cfg.main.lan_subnets };
    }
