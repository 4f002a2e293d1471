-- ===== src/Examples/Provider.antt =====
-- internal/provider on concrete lists and configurations.
use zakop.Prelude.{ℕ, ◌≡◌, ◌⊎◌, ◌↔◌, refl, List, [], ◌∷◌, ◌++◌, none, some}
use zakop.Text.{
  Str, codes, str_eq, is_space, to_lower, lower_rune, trim_left, trim_right, trim_space, has_prefix,
  contains, split, cut, fields, fields_func, join,
}
use zakop.Text.Scanner.{scan_lines, scanned}
use zakop.Dict.{contains_text, lookup}
use zakop.Policy.Cidr.{
  IpNet, normalize_ipv4_cidrs, ranges, net_range, sort_ranges, insert_range, before, merge_ranges,
  merge_from, absorb, cidrs_of, range_to_cidrs, cut_range, block_size, trailing_zeros, bit_len,
  shrink,
}
use zakop.Policy.Blocks.{InNets}
use zakop.Policy.Parse.{strip_provider_comment, parse_ipv4_cidr}
use zakop.Policy.Load.{load_ipv4_cidrs}
use zakop.Net.{ipv4_string}
use zakop.Net.Parse.{parse_cidr, parse_ip}
use zakop.Config.Types.{Config}
use zakop.Config.Validate.{parsed, validate, checked, parse}
use zakop.Config.Uci.{
  flush, scan_rune, scan, split_uci_fields, uncomment_from, strip_comment, option_of, list_of,
  open_section, add_option, add_list, parse_fields, parse_trimmed, parse_line, parse_lines,
  parse_sections,
}
use zakop.Config.Parse.{
  defaults, add_section, add_sections, assign_rule, assign_first_custom_outbound, insert_rule,
  sort_rules, cidrs_from, normalize_ipv4_cidr_strings, config_of,
}
use zakop.Config.ApplyMain.{
  dns_options, legacy_dns_options, real_dns_defaults, other_options, apply_simple_rule, apply_main,
}
use zakop.Config.Lists.{
  clean_from, clean_list, domain_value, clean_domain_list, trim_list, safe_provider_name,
  split_list_option, parse_bool, parse_rule_port, parse_rule_port_range, normalize_client_policy,
  normalize_client_outbound,
}
use zakop.Config.Access.{
  is_blank, first_non_empty, singbox_dns_fakeip_addr, singbox_dns_real_direct_addr,
  singbox_dns_real_proxy_addr, enabled_outbounds, enabled_custom_outbounds, outbound_tags,
  pool_tags, proxy_target_tags, outbound_pool_by_tag, outbound_candidate_tags,
  effective_simple_rule, effective_rules, provider_by_name, reserved_custom_outbound_tag,
}
use zakop.Config.ParseSection.{
  parse_rule, rule_warnings, parse_update_schedule, parse_update_interval_minutes, update_hour_of,
  parse_provider, parse_subscription, parse_outbound_pool, parse_client,
}
use zakop.Config.Dns.{
  normalize_dns_protocol, preset_dns_upstream, default_dns_port, split_host_port,
  split_host_port_value, split_optional_host_port, legacy_dns_upstream, dns_upstream, address_of,
  sync_legacy_dns_fields,
}
use zakop.Nft.Sets.{cidr_strings}
use zakop.Provider.Lists.{
  clean_lines, line_values, normalize_domain_value, normalize_domain_list, normalize_ip_list,
  cidr_values, cache_text,
}
use zakop.Provider.Cached.{load_ipv4_cidrs-cache_text}
use zakop.Provider.Networks.{SomeBad, InSome, normalize_ip_list_lem}
use zakop.Provider.Chunks.{
  Chunk, updated, field_rune, field_runes, split_fields, is_config_line, chunks_from, parse_chunks,
  set_from, set_option, update_chunk, is_provider, update_first, lines_text, chunk_lines,
  update_metadata,
}
use zakop.Provider.Written.{FirstOf, update_metadata_lem}
use zakop.Text.Number.{itoa, digits_onto, atoi, number, number_from, digit_value}
use zakop.Importer.Format.{quoted_text, replace_all}

abbrev downloaded : Str
downloaded = codes "1.1.1.0/25 # one\n\n2001:db8::/32\r\n1.1.1.128/25 8.8.8.8"

values :
    clean_lines downloaded
    ≡ codes "1.1.1.0/25" ∷ codes "2001:db8::/32" ∷ codes "1.1.1.128/25" ∷ codes "8.8.8.8" ∷ []
unfolding clean_lines scan_lines scanned line_values fields fields_func split cut
    strip_provider_comment trim_space trim_left trim_right is_space
values = refl

domains :
    normalize_domain_list (codes "*.Example.com\nexample.com. .b.org")
    ≡ codes "example.com" ∷ codes "b.org" ∷ []
unfolding normalize_domain_list normalize_domain_value clean_from clean_lines scan_lines scanned
    line_values fields fields_func split cut strip_provider_comment trim_space trim_left trim_right
    is_space to_lower lower_rune has_prefix contains_text str_eq
domains = refl

normalize_ip_list_lem_example :
    ((normalize_ip_list downloaded ≡ none) × SomeBad (clean_lines downloaded))
    ⊎ ((¬ SomeBad (clean_lines downloaded))
        × (nets : List IpNet) × (normalize_ip_list downloaded ≡ some (cidr_strings nets))
        × ((x : ℕ) → InNets x nets ↔ InSome x (clean_lines downloaded)))
normalize_ip_list_lem_example = normalize_ip_list_lem downloaded

abbrev networks : List Str
networks = codes "1.1.1.0/24" ∷ codes "8.8.8.8/32" ∷ []

networks-downloaded : normalize_ip_list downloaded ≡ some networks
unfolding normalize_ip_list cidr_values clean_lines scan_lines scanned line_values fields
    fields_func split cut strip_provider_comment trim_space trim_left trim_right is_space
    parse_ipv4_cidr parse_cidr parse_ip number number_from digit_value contains has_prefix
    cidr_strings itoa digits_onto join ipv4_string normalize_ipv4_cidrs ranges net_range sort_ranges
    insert_range before merge_ranges merge_from absorb cidrs_of range_to_cidrs cut_range block_size
    trailing_zeros bit_len shrink str_eq
networks-downloaded = refl

load_ipv4_cidrs-cache_text_example :
    (nets : List IpNet) × (load_ipv4_cidrs (cache_text networks) ≡ some nets)
    × ((x : ℕ) → InNets x nets ↔ InSome x (clean_lines downloaded))
load_ipv4_cidrs-cache_text_example =
    load_ipv4_cidrs-cache_text downloaded networks networks-downloaded

abbrev provider_text : Str
provider_text = codes "config main 'main'\n\toption enabled '0'\nconfig provider 'p'\n"

abbrev updated_text : Str
updated_text =
    codes
      "config main 'main'\n\toption enabled '0'\nconfig provider 'p'\n\n\toption local_path \"/tmp/p\"\n\toption last_update \"1\"\n\toption item_count \"2\"\n"

provider_text-updated :
    update_metadata provider_text (codes "p") (codes "/tmp/p") (codes "1") 2 ≡ updated updated_text
unfolding field_rune field_runes split_fields is_config_line chunks_from parse_chunks set_from
    set_option update_chunk is_provider update_first lines_text chunk_lines update_metadata validate
    checked parse flush scan_rune scan split_uci_fields uncomment_from strip_comment option_of
    list_of open_section add_option add_list parse_fields parse_trimmed parse_line parse_lines
    parse_sections defaults add_section add_sections assign_rule assign_first_custom_outbound
    insert_rule sort_rules cidrs_from normalize_ipv4_cidr_strings config_of dns_options
    legacy_dns_options real_dns_defaults other_options apply_simple_rule apply_main clean_from
    clean_list domain_value clean_domain_list trim_list safe_provider_name split_list_option
    parse_bool parse_rule_port parse_rule_port_range normalize_client_policy
    normalize_client_outbound is_blank first_non_empty singbox_dns_fakeip_addr
    singbox_dns_real_direct_addr singbox_dns_real_proxy_addr enabled_outbounds
    enabled_custom_outbounds outbound_tags pool_tags proxy_target_tags outbound_pool_by_tag
    outbound_candidate_tags effective_simple_rule effective_rules provider_by_name
    reserved_custom_outbound_tag parse_rule rule_warnings parse_update_schedule
    parse_update_interval_minutes update_hour_of parse_provider parse_subscription
    parse_outbound_pool parse_client normalize_dns_protocol preset_dns_upstream default_dns_port
    split_host_port split_host_port_value split_optional_host_port legacy_dns_upstream dns_upstream
    address_of sync_legacy_dns_fields str_eq is_space to_lower lower_rune trim_left trim_right
    trim_space has_prefix contains split cut lookup contains_text itoa digits_onto atoi number
    number_from digit_value quoted_text replace_all
provider_text-updated = refl

update_metadata_lem_example :
    (before : List Chunk) × (c : Chunk) × (behind : List Chunk) × FirstOf
      (codes "p")
      (parse_chunks provider_text)
      before
      c
      behind
    × (lines_text (chunk_lines before ++ (c.text ++ chunk_lines behind))
        ≡ provider_text ++ (10 ∷ []))
    × (updated_text
        ≡ lines_text (
            chunk_lines before
            ++ ((update_chunk (codes "/tmp/p") (codes "1") 2 c).text ++ chunk_lines behind)))
    × ((cfg : Config) × (parse updated_text ≡ parsed cfg))
update_metadata_lem_example =
    update_metadata_lem provider_text (codes "p") (codes "/tmp/p") (codes "1") 2 updated_text
      provider_text-updated
