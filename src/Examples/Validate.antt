-- ===== src/Examples/Validate.antt =====
-- internal/config/config.go, `Validate`, on concrete configurations.
use zakop.Prelude.{◌≡◌, refl, true, false, [], ◌∷◌, none, some}
use zakop.Prelude.Int.{pos}
use zakop.Text.{
  Str, codes, str_eq, trim_space, trim_left, trim_right, is_space, split, to_lower, lower_rune, cut,
  has_prefix, contains,
}
use zakop.Text.Number.{atoi, number, number_from, digit_value}
use zakop.Dict.{contains_text, lookup}
use zakop.Net.{is_loopback, net_contains}
use zakop.Net.Parse.{parse_ip, parse_cidr}
use zakop.Net.Url.{parse_url}
use zakop.Policy.Parse.{parse_ipv4_cidr}
use zakop.Config.Types.{Config, Rule, Outbound}
use zakop.Config.Uci.{Section}
use zakop.Config.ParseOutbound.{parse_outbound}
use zakop.Config.Parse.{defaults}
use zakop.Config.Access.{
  is_blank, first_non_empty, enabled_custom_outbounds, proxy_target_tags,
  reserved_custom_outbound_tag, effective_simple_rule, singbox_dns_fakeip_addr,
  singbox_dns_real_direct_addr, singbox_dns_real_proxy_addr,
}
use zakop.Config.Dns.{
  split_host_port, dns_upstream, preset_dns_upstream, default_dns_port, normalize_dns_protocol,
}
use zakop.Config.Lists.{parse_rule_port_range, parse_rule_port}
use zakop.Config.Fault.{fault, fail_if, one_of, check_each}
use zakop.Config.Validate.Main.{
  is_ipv4_subnet, check_lan_subnet, check_lan_iface, check_listeners, check_pool_controller,
  same_host, router_lan_ip, check_points_back, check_real_dns_no_loop, check_upstream, check_modes,
  check_lan, check_ports, check_main,
}
use zakop.Config.Validate.Targets.{
  check_field, require_outbound_fields, check_outbound_type, check_outbound, check_outbounds,
  see_outbounds, check_members, is_check_url, check_pool, check_pools, see_pools, custom_tags,
  seen_tags, check_target_ports, check_client, check_client_outbound, check_real_dns_outbound,
  unknown_via, check_update_outbound, check_targets,
}
use zakop.Config.Validate.Rules.{
  valid_update_interval_minutes, check_source, check_provider_schedule, check_provider,
  check_providers, seen_providers, check_subscription_schedule, check_enabled_subscription,
  check_subscriptions, rule_has_domain_selectors, rule_has_ip_selectors, rule_has_port_selectors,
  check_proto, check_rule_port, check_selectors, check_rule_file, check_domain_file,
  check_rule_cidr, check_rule_provider, check_rule_outbound, check_rule, checked_rules, check_lists,
}
use zakop.Config.Validate.{validate}
use zakop.Config.Validate.Sound.{IsSound, validate-IsSound}

url_hosts :
    (parse_url (codes "https://www.gstatic.com/generate_204")
      ≡ some (codes "https", codes "www.gstatic.com"))
    × (parse_url (codes "HTTP://u:p@[::1]:80?x#f") ≡ some (codes "http", codes "[::1]:80"))
    × (parse_url (codes "www.example.com") ≡ some ([], []))
    × (parse_url (codes "http://a b/") ≡ none)
    × (parse_url (codes "http://a:b/") ≡ none)
    × (parse_url (codes "://a") ≡ none)
unfolding parse_url to_lower lower_rune has_prefix cut
url_hosts = (refl, refl, refl, refl, refl, refl)

abbrev blank_section : Section
blank_section = record { type = []; name = []; options = []; lists = [] }

abbrev vless : Str → Outbound
vless tag = record (parse_outbound blank_section) {
  enabled = true;
  tag = tag;
  type = codes "vless";
  server = codes "192.0.2.1";
  port = pos 443;
  uuid = codes "u";
  reality = false;
}

abbrev pub cidr_rule : Rule
cidr_rule = record defaults.main.simple_rule {
  name = codes "r";
  outbound = codes "pool";
  ip_cidrs = codes "1.1.1.0/24" ∷ [];
  dst_ports = codes "80-443" ∷ [];
}

abbrev pub pooled : Config
pooled = record defaults {
  outbounds = vless (codes "a") ∷ vless (codes "b") ∷ [];
  outbound_pools =
      record {
        tag = codes "pool";
        label = [];
        outbounds = codes "a" ∷ codes "b" ∷ [];
        check_url = codes "https://www.gstatic.com/generate_204";
        check_interval = pos 60;
      }
      ∷ [];
  rules = cidr_rule ∷ [];
}

pub pooled-valid : validate pooled ≡ none
unfolding validate is_ipv4_subnet check_lan_subnet check_lan_iface check_listeners
    check_pool_controller same_host router_lan_ip check_points_back check_real_dns_no_loop
    check_upstream check_modes check_lan check_ports check_main check_field require_outbound_fields
    check_outbound_type check_outbound check_outbounds see_outbounds check_members is_check_url
    check_pool check_pools see_pools custom_tags seen_tags check_target_ports check_client
    check_client_outbound check_real_dns_outbound unknown_via check_update_outbound check_targets
    valid_update_interval_minutes check_source check_provider_schedule check_provider
    check_providers seen_providers check_subscription_schedule check_enabled_subscription
    check_subscriptions rule_has_domain_selectors rule_has_ip_selectors rule_has_port_selectors
    check_proto check_rule_port check_selectors check_rule_file check_domain_file check_rule_cidr
    check_rule_provider check_rule_outbound check_rule checked_rules check_lists fault fail_if
    one_of check_each contains_text lookup str_eq trim_space trim_left trim_right is_space split
    to_lower lower_rune cut has_prefix contains atoi number number_from digit_value is_loopback
    net_contains parse_ip parse_cidr parse_url parse_ipv4_cidr is_blank first_non_empty
    enabled_custom_outbounds proxy_target_tags reserved_custom_outbound_tag effective_simple_rule
    singbox_dns_fakeip_addr singbox_dns_real_direct_addr singbox_dns_real_proxy_addr split_host_port
    dns_upstream preset_dns_upstream default_dns_port normalize_dns_protocol parse_rule_port_range
    parse_rule_port defaults
pooled-valid = refl

validate-IsSound_example : IsSound pooled
unfolding defaults
validate-IsSound_example = validate-IsSound pooled refl pooled-valid
