-- ===== src/Examples/Nft.antt =====
-- internal/nft/generator.go on concrete configurations.
use zakop.Prelude.{◌≡◌, ◌⊎◌, refl, true, List, [], ◌∷◌, none, some}
use zakop.Policy.Cidr.{v4}
use zakop.Config.Types.{Config}
use zakop.Config.Validate.Main.{
  is_ipv4_subnet, check_lan_subnet, check_lan_iface, check_listeners, check_pool_controller,
  same_host, router_lan_ip, check_points_back, check_real_dns_no_loop, check_upstream, check_modes,
  check_lan, check_ports, check_main,
}
use zakop.Config.Validate.Targets.{
  check_field, require_outbound_fields, check_outbound_type, check_outbound, check_outbounds,
  see_outbounds, check_members, is_check_url, check_pool, check_pools, see_pools, custom_tags,
  seen_tags, check_target_ports, check_client, check_client_outbound, check_real_dns_outbound,
  unknown_via, check_update_outbound, check_targets,
}
use zakop.Config.Validate.Rules.{
  valid_update_interval_minutes, check_source, check_provider_schedule, check_provider,
  check_providers, seen_providers, check_subscription_schedule, check_enabled_subscription,
  check_subscriptions, rule_has_domain_selectors, rule_has_ip_selectors, rule_has_port_selectors,
  check_proto, check_rule_port, check_selectors, check_rule_file, check_domain_file,
  check_rule_cidr, check_rule_provider, check_rule_outbound, check_rule, checked_rules, check_lists,
}
use zakop.Config.Validate.{parsed, validate, checked, parse}
use zakop.Config.Fault.{fault, fail_if, one_of, check_each}
use zakop.Config.Uci.{
  Section, flush, scan_rune, scan, split_uci_fields, uncomment_from, strip_comment, option_of,
  list_of, open_section, add_option, add_list, parse_fields, parse_trimmed, parse_line, parse_lines,
  parse_sections,
}
use zakop.Config.Parse.{
  defaults, add_section, add_sections, assign_rule, assign_first_custom_outbound, insert_rule,
  sort_rules, cidrs_from, normalize_ipv4_cidr_strings, config_of,
}
use zakop.Config.ParseSection.{
  parse_rule, rule_warnings, parse_update_schedule, parse_update_interval_minutes, update_hour_of,
  parse_provider, parse_subscription, parse_outbound_pool, parse_client,
}
use zakop.Config.ParseOutbound.{parse_outbound, outbound_warnings}
use zakop.Config.ApplyMain.{
  dns_options, legacy_dns_options, real_dns_defaults, other_options, apply_simple_rule, apply_main,
}
use zakop.Config.Lists.{
  clean_from, clean_list, domain_value, clean_domain_list, trim_list, safe_provider_name,
  split_list_option, parse_bool, parse_rule_port, parse_rule_port_range, normalize_client_policy,
  normalize_client_outbound,
}
use zakop.Config.Dns.{
  normalize_dns_protocol, preset_dns_upstream, default_dns_port, split_host_port,
  split_host_port_value, split_optional_host_port, legacy_dns_upstream, dns_upstream, address_of,
  sync_legacy_dns_fields,
}
use zakop.Config.Access.{
  is_blank, first_non_empty, singbox_dns_fakeip_addr, singbox_dns_real_direct_addr,
  singbox_dns_real_proxy_addr, enabled_outbounds, enabled_custom_outbounds, outbound_tags,
  pool_tags, proxy_target_tags, outbound_pool_by_tag, outbound_candidate_tags,
  effective_simple_rule, effective_rules, provider_by_name, reserved_custom_outbound_tag,
}
use zakop.Text.{
  Str, codes, str_eq, is_space, lower_rune, to_lower, trim_left, trim_right, trim_space, has_prefix,
  has_suffix, contains, split, join, cut, fields_func, fields,
}
use zakop.Text.Number.{digits_onto, itoa, digit_value, number_from, number, atoi, parse_uint32}
use zakop.Dict.{lookup, contains_text}
use zakop.Net.Url.{parse_url}
use zakop.Net.Parse.{parse_ip, parse_cidr}
use zakop.Net.{ipv4_string, is_loopback, net_contains}
use zakop.Policy.Parse.{parse_ipv4_cidr, strip_provider_comment}
use zakop.Nft.Generate.{RuleCidrs, ruleset_text, panicked, generate}
use zakop.Nft.Sets.{parse_all, must_ipv4_cidrs}
use zakop.Nft.Packet.{parse_nft_port}
use zakop.Examples.Validate.{pooled}
use zakop.Nft.Ports.{SameRange, parse_nft_port-SameRange}
use zakop.Nft.Panics.{AllCidrs}
use zakop.Nft.Lines.{Packet}
use zakop.Nft.Accepted.{parse-generate}

abbrev one_net : RuleCidrs
one_net i = some (v4 0x0101_0100 24) ∷ []

abbrev config_text : Str
config_text =
    codes
      "config main 'main'\n\toption enabled '1'\nconfig outbound 'a'\n\toption server 's'\n\toption port '443'\n\toption uuid 'u'\nconfig rule 'r'\n\toption outbound 'a'\n\toption dns_mode 'real_ip'\n\tlist ip_cidr '1.1.1.0/24'\n\tlist dst_port '80-443'\n"

abbrev sections : List Section
sections =
    record {
      type = codes "main";
      name = codes "main";
      options = (codes "enabled", codes "1") ∷ [];
      lists = [];
    }
    ∷ record {
      type = codes "outbound";
      name = codes "a";
      options =
          (codes "uuid", codes "u")
          ∷ (codes "port", codes "443")
          ∷ (codes "server", codes "s")
          ∷ [];
      lists = [];
    }
    ∷ record {
      type = codes "rule";
      name = codes "r";
      options = (codes "dns_mode", codes "real_ip") ∷ (codes "outbound", codes "a") ∷ [];
      lists =
          (codes "dst_port", codes "80-443" ∷ []) ∷ (codes "ip_cidr", codes "1.1.1.0/24" ∷ []) ∷ [];
    }
    ∷ []

text-sections : parse_sections config_text ≡ some sections
unfolding flush scan_rune scan split_uci_fields uncomment_from strip_comment option_of list_of
    open_section add_option add_list parse_fields parse_trimmed parse_line parse_lines
    parse_sections str_eq is_space trim_left trim_right trim_space split lookup has_prefix contains
text-sections = refl

abbrev configured : Config
configured = config_of sections

configured-valid : validate configured ≡ none
unfolding is_ipv4_subnet check_lan_subnet check_lan_iface check_listeners check_pool_controller
    same_host router_lan_ip check_points_back check_real_dns_no_loop check_upstream check_modes
    check_lan check_ports check_main check_field require_outbound_fields check_outbound_type
    check_outbound check_outbounds see_outbounds check_members is_check_url check_pool check_pools
    see_pools custom_tags seen_tags check_target_ports check_client check_client_outbound
    check_real_dns_outbound unknown_via check_update_outbound check_targets
    valid_update_interval_minutes check_source check_provider_schedule check_provider
    check_providers seen_providers check_subscription_schedule check_enabled_subscription
    check_subscriptions rule_has_domain_selectors rule_has_ip_selectors rule_has_port_selectors
    check_proto check_rule_port check_selectors check_rule_file check_domain_file check_rule_cidr
    check_rule_provider check_rule_outbound check_rule checked_rules check_lists validate checked
    parse fault fail_if one_of check_each flush scan_rune scan split_uci_fields uncomment_from
    strip_comment option_of list_of open_section add_option add_list parse_fields parse_trimmed
    parse_line parse_lines parse_sections defaults add_section add_sections assign_rule
    assign_first_custom_outbound insert_rule sort_rules cidrs_from normalize_ipv4_cidr_strings
    config_of parse_rule rule_warnings parse_update_schedule parse_update_interval_minutes
    update_hour_of parse_provider parse_subscription parse_outbound_pool parse_client parse_outbound
    outbound_warnings dns_options legacy_dns_options real_dns_defaults other_options
    apply_simple_rule apply_main clean_from clean_list domain_value clean_domain_list trim_list
    safe_provider_name split_list_option parse_bool parse_rule_port parse_rule_port_range
    normalize_client_policy normalize_client_outbound normalize_dns_protocol preset_dns_upstream
    default_dns_port split_host_port split_host_port_value split_optional_host_port
    legacy_dns_upstream dns_upstream address_of sync_legacy_dns_fields is_blank first_non_empty
    singbox_dns_fakeip_addr singbox_dns_real_direct_addr singbox_dns_real_proxy_addr
    enabled_outbounds enabled_custom_outbounds outbound_tags pool_tags proxy_target_tags
    outbound_pool_by_tag outbound_candidate_tags effective_simple_rule effective_rules
    provider_by_name reserved_custom_outbound_tag str_eq is_space lower_rune to_lower trim_left
    trim_right trim_space has_prefix has_suffix contains split join cut fields_func fields
    digits_onto itoa digit_value number_from number atoi parse_uint32 lookup contains_text parse_ip
    parse_cidr parse_ipv4_cidr strip_provider_comment parse_url ipv4_string is_loopback net_contains
configured-valid = refl

configured-parsed : parse config_text ≡ parsed configured
unfolding parse config_of checked assign_first_custom_outbound normalize_ipv4_cidr_strings
    sort_rules
configured-parsed = rw (text-sections, parse) (rw (configured-valid, checked) refl)

configured-enabled : configured.main.enabled ≡ true
unfolding is_ipv4_subnet check_lan_subnet check_lan_iface check_listeners check_pool_controller
    same_host router_lan_ip check_points_back check_real_dns_no_loop check_upstream check_modes
    check_lan check_ports check_main check_field require_outbound_fields check_outbound_type
    check_outbound check_outbounds see_outbounds check_members is_check_url check_pool check_pools
    see_pools custom_tags seen_tags check_target_ports check_client check_client_outbound
    check_real_dns_outbound unknown_via check_update_outbound check_targets
    valid_update_interval_minutes check_source check_provider_schedule check_provider
    check_providers seen_providers check_subscription_schedule check_enabled_subscription
    check_subscriptions rule_has_domain_selectors rule_has_ip_selectors rule_has_port_selectors
    check_proto check_rule_port check_selectors check_rule_file check_domain_file check_rule_cidr
    check_rule_provider check_rule_outbound check_rule checked_rules check_lists validate checked
    parse fault fail_if one_of check_each flush scan_rune scan split_uci_fields uncomment_from
    strip_comment option_of list_of open_section add_option add_list parse_fields parse_trimmed
    parse_line parse_lines parse_sections defaults add_section add_sections assign_rule
    assign_first_custom_outbound insert_rule sort_rules cidrs_from normalize_ipv4_cidr_strings
    config_of parse_rule rule_warnings parse_update_schedule parse_update_interval_minutes
    update_hour_of parse_provider parse_subscription parse_outbound_pool parse_client parse_outbound
    outbound_warnings dns_options legacy_dns_options real_dns_defaults other_options
    apply_simple_rule apply_main clean_from clean_list domain_value clean_domain_list trim_list
    safe_provider_name split_list_option parse_bool parse_rule_port parse_rule_port_range
    normalize_client_policy normalize_client_outbound normalize_dns_protocol preset_dns_upstream
    default_dns_port split_host_port split_host_port_value split_optional_host_port
    legacy_dns_upstream dns_upstream address_of sync_legacy_dns_fields is_blank first_non_empty
    singbox_dns_fakeip_addr singbox_dns_real_direct_addr singbox_dns_real_proxy_addr
    enabled_outbounds enabled_custom_outbounds outbound_tags pool_tags proxy_target_tags
    outbound_pool_by_tag outbound_candidate_tags effective_simple_rule effective_rules
    provider_by_name reserved_custom_outbound_tag str_eq is_space lower_rune to_lower trim_left
    trim_right trim_space has_prefix has_suffix contains split join cut fields_func fields
    digits_onto itoa digit_value number_from number atoi parse_uint32 lookup contains_text parse_ip
    parse_cidr parse_ipv4_cidr strip_provider_comment
configured-enabled = refl

parse-generate_example :
    (AllCidrs configured.main.lan_subnets
      × ((out : Str) × (generate configured one_net ≡ ruleset_text out)))
    ⊎ ((¬ AllCidrs configured.main.lan_subnets) × (generate configured one_net ≡ panicked))
parse-generate_example =
    parse-generate config_text configured one_net configured-parsed configured-enabled

parse_nft_port-SameRange_example :
    SameRange (parse_nft_port (codes "80 - 443")) (parse_rule_port_range (codes "80 - 443"))
parse_nft_port-SameRange_example = parse_nft_port-SameRange (codes "80 - 443")

-- `Validate` accepts a LAN subnet in the notation of IPv6, on which `Generate` panics.
abbrev mapped_subnet : Config
mapped_subnet = record pooled {
  main = record pooled.main { lan_subnets = codes "::ffff:192.168.8.0/120" ∷ [] };
}

mapped_subnet-panics : (validate mapped_subnet ≡ none) × (generate mapped_subnet one_net ≡ panicked)
unfolding generate must_ipv4_cidrs parse_all is_ipv4_subnet check_lan_subnet check_lan_iface
    check_listeners check_pool_controller same_host router_lan_ip check_points_back
    check_real_dns_no_loop check_upstream check_modes check_lan check_ports check_main check_field
    require_outbound_fields check_outbound_type check_outbound check_outbounds see_outbounds
    check_members is_check_url check_pool check_pools see_pools custom_tags seen_tags
    check_target_ports check_client check_client_outbound check_real_dns_outbound unknown_via
    check_update_outbound check_targets valid_update_interval_minutes check_source
    check_provider_schedule check_provider check_providers seen_providers
    check_subscription_schedule check_enabled_subscription check_subscriptions
    rule_has_domain_selectors rule_has_ip_selectors rule_has_port_selectors check_proto
    check_rule_port check_selectors check_rule_file check_domain_file check_rule_cidr
    check_rule_provider check_rule_outbound check_rule checked_rules check_lists validate checked
    parse fault fail_if one_of check_each flush scan_rune scan split_uci_fields uncomment_from
    strip_comment option_of list_of open_section add_option add_list parse_fields parse_trimmed
    parse_line parse_lines parse_sections defaults add_section add_sections assign_rule
    assign_first_custom_outbound insert_rule sort_rules cidrs_from normalize_ipv4_cidr_strings
    config_of parse_rule rule_warnings parse_update_schedule parse_update_interval_minutes
    update_hour_of parse_provider parse_subscription parse_outbound_pool parse_client parse_outbound
    outbound_warnings dns_options legacy_dns_options real_dns_defaults other_options
    apply_simple_rule apply_main clean_from clean_list domain_value clean_domain_list trim_list
    safe_provider_name split_list_option parse_bool parse_rule_port parse_rule_port_range
    normalize_client_policy normalize_client_outbound normalize_dns_protocol preset_dns_upstream
    default_dns_port split_host_port split_host_port_value split_optional_host_port
    legacy_dns_upstream dns_upstream address_of sync_legacy_dns_fields is_blank first_non_empty
    singbox_dns_fakeip_addr singbox_dns_real_direct_addr singbox_dns_real_proxy_addr
    enabled_outbounds enabled_custom_outbounds outbound_tags pool_tags proxy_target_tags
    outbound_pool_by_tag outbound_candidate_tags effective_simple_rule effective_rules
    provider_by_name reserved_custom_outbound_tag str_eq is_space lower_rune to_lower trim_left
    trim_right trim_space has_prefix has_suffix contains split join cut fields_func fields
    digits_onto itoa digit_value number_from number atoi parse_uint32 lookup contains_text parse_ip
    parse_cidr parse_ipv4_cidr strip_provider_comment parse_url ipv4_string is_loopback net_contains
mapped_subnet-panics = (refl, refl)
