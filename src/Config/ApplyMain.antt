-- ===== src/Config/ApplyMain.antt =====
-- internal/config/config.go: `applyMain`, `applySimpleRule` and what they read of a section.
use zakop.Prelude.{
  Bool, true, false, not, ◌&&◌, ◌||◌, List, [], ◌∷◌, Option, none, some, if◌then◌else◌,
}
use zakop.Prelude.Int.{ℤ}
use zakop.Text.{Str, codes, str_eq, to_lower, trim_space}
use zakop.Text.Number.{atoi}
use zakop.Dict.{lookup}
use zakop.Config.Types.{Main}
use zakop.Config.Access.{effective_simple_rule}
use zakop.Config.Lists.{
  is_empty, clean_list, clean_domain_list, append_list, split_list_option, parse_bool,
}
use zakop.Config.Dns.{
  normalize_dns_protocol, default_dns_port, split_host_port_value, split_optional_host_port,
  legacy_dns_upstream, sync_legacy_dns_fields,
}
use zakop.Config.Uci.{Section, option_of, list_of}

-- `if v := s.options[key]; v != "" { field = v }`, with `f` applied to the value.
abbrev pub set_text : (Str → Str) → Section → Str → Str → Str
set_text f s key old = let v = option_of s key in if is_empty v then old else f v

-- `if v, ok := s.options[key]; ok { field = parseBool(v, field) }`.
abbrev pub set_bool : Section → Str → Bool → Bool
set_bool s key old = elim (lookup key s.options) [ none ↦ old | some v ↦ parse_bool v old ]

-- `if v, ok := s.options[key]; ok { field = strings.TrimSpace(v) }`.
abbrev pub set_present : Section → Str → Str → Str
set_present s key old = elim (lookup key s.options) [ none ↦ old | some v ↦ trim_space v ]

-- `if v := s.options[key]; v != "" { if n, err := strconv.Atoi(v); err == nil { field = n } }`.
abbrev pub int_or : Option ℤ → ℤ → ℤ
int_or none old = old
int_or (some n) old = n

abbrev pub set_int : Section → Str → ℤ → ℤ
set_int s key old = let v = option_of s key in if is_empty v then old else int_or (atoi v) old

abbrev same_text : Str → Str
same_text v = v

abbrev pub lower_trimmed : Str → Str
lower_trimmed v = to_lower (trim_space v)

abbrev pub has_value : Section → Str → Bool
has_value s key = not (is_empty (option_of s key))

abbrev has_int : Section → Str → Bool
has_int s key = has_value s key && elim (atoi (option_of s key)) [ none ↦ false | some n ↦ true ]

-- `hasRealDNSFields`, `hasRealDNSPort`, `hasDNSUpstreamFields` (which holds whenever
-- `hasDNSUpstreamPreset` does) behind the options.
abbrev has_real_dns_fields : Section → Bool
has_real_dns_fields s =
    has_value s (codes "real_dns_transport")
    || has_value s (codes "real_dns_server")
    || has_int s (codes "real_dns_port")
    || has_value s (codes "real_dns_server_name")
    || has_value s (codes "real_dns_path")

abbrev has_dns_upstream_fields : Section → Bool
has_dns_upstream_fields s =
    has_value s (codes "dns_upstream_preset")
    || has_value s (codes "dns_upstream_protocol")
    || has_value s (codes "dns_upstream_host")
    || has_int s (codes "dns_upstream_port")
    || has_value s (codes "dns_upstream_tls_name")
    || has_value s (codes "dns_upstream_path")

-- The options up to "dns_upstream_path".
unfoldable pub dns_options : Main → Section → Main
dns_options m s = record m {
  enabled = set_bool s (codes "enabled") m.enabled;
  dns_listen = set_text same_text s (codes "dns_listen") m.dns_listen;
  real_dns_upstream = set_text same_text s (codes "real_dns_upstream") m.real_dns_upstream;
  real_dns_mode = set_text lower_trimmed s (codes "real_dns_mode") m.real_dns_mode;
  real_dns_outbound = set_present s (codes "real_dns_outbound") m.real_dns_outbound;
  real_dns_transport =
      set_text normalize_dns_protocol s (codes "real_dns_transport") m.real_dns_transport;
  real_dns_server = set_text trim_space s (codes "real_dns_server") m.real_dns_server;
  real_dns_server_port = set_int s (codes "real_dns_port") m.real_dns_server_port;
  real_dns_server_name =
      set_text trim_space s (codes "real_dns_server_name") m.real_dns_server_name;
  real_dns_path = set_text trim_space s (codes "real_dns_path") m.real_dns_path;
  dns_upstream_preset = set_text same_text s (codes "dns_upstream_preset") m.dns_upstream_preset;
  dns_upstream_protocol =
      set_text normalize_dns_protocol s (codes "dns_upstream_protocol") m.dns_upstream_protocol;
  dns_upstream_host = set_text same_text s (codes "dns_upstream_host") m.dns_upstream_host;
  dns_upstream_port = set_int s (codes "dns_upstream_port") m.dns_upstream_port;
  dns_upstream_tls_name =
      set_text same_text s (codes "dns_upstream_tls_name") m.dns_upstream_tls_name;
  dns_upstream_path = set_text same_text s (codes "dns_upstream_path") m.dns_upstream_path;
}

-- The fields of the upstream where no "real_dns_" option but the address is given.
unfoldable pub legacy_dns_options : Main → Section → Main
legacy_dns_options m s =
    let u = legacy_dns_upstream m in
    if not (has_real_dns_fields s) && has_dns_upstream_fields s
    then record m {
      real_dns_transport = u.protocol;
      real_dns_server = u.host;
      real_dns_server_port = u.port;
      real_dns_server_name = u.tls_name;
      real_dns_path = u.path;
    }
    else if not (has_real_dns_fields s) && has_value s (codes "real_dns_upstream")
    then elim (split_host_port_value m.real_dns_upstream) [
      | none ↦ m
      | some (host, port) ↦ record m {
        real_dns_transport = codes "udp";
        real_dns_server = host;
        real_dns_server_port = port;
        real_dns_server_name = [];
        real_dns_path = codes "/dns-query";
        dns_upstream_preset = codes "custom";
        dns_upstream_host = host;
        dns_upstream_port = port;
        dns_upstream_protocol = codes "udp";
      }
    ]
    else m

-- The port and the preset that follow from the "real_dns_" options.
unfoldable pub real_dns_defaults : Main → Section → Main
real_dns_defaults m s =
    let ported : Main =
      if has_real_dns_fields s && not (has_int s (codes "real_dns_port"))
      then elim (split_optional_host_port m.real_dns_server) [
        | none ↦ record m { real_dns_server_port = default_dns_port m.real_dns_transport }
        | some pair ↦ m
      ]
      else m in
    if has_real_dns_fields s && not (has_value s (codes "dns_upstream_preset"))
    then record ported { dns_upstream_preset = codes "custom" }
    else ported

-- The options behind the DNS fields, up to the simple rule.
abbrev fakeip_address : Main → Section → Str
fakeip_address m s =
    let both = option_of s (codes "singbox_dns_fakeip") in
    if not (is_empty both)
    then both
    else set_text same_text s (codes "singbox_dns") m.singbox_dns_fakeip

abbrev singbox_address : Main → Section → Str
singbox_address m s =
    let both = option_of s (codes "singbox_dns_fakeip") in
    if not (is_empty both) then both else set_text same_text s (codes "singbox_dns") m.singbox_dns

unfoldable pub other_options : Main → Section → Main
other_options m s = record m {
  manage_dnsmasq = set_bool s (codes "manage_dnsmasq") m.manage_dnsmasq;
  filter_aaaa_for_fakeip = set_bool s (codes "filter_aaaa_for_fakeip") m.filter_aaaa_for_fakeip;
  singbox_bin = set_text same_text s (codes "singbox_bin") m.singbox_bin;
  singbox_dns = singbox_address m s;
  singbox_dns_fakeip = fakeip_address m s;
  singbox_dns_real_direct =
      set_text same_text s (codes "singbox_dns_real_direct") m.singbox_dns_real_direct;
  singbox_dns_real_proxy =
      set_text same_text s (codes "singbox_dns_real_proxy") m.singbox_dns_real_proxy;
  pool_controller = set_text trim_space s (codes "pool_controller") m.pool_controller;
  tproxy_port = set_int s (codes "tproxy_port") m.tproxy_port;
  mark = set_text same_text s (codes "mark") m.mark;
  table = set_int s (codes "table") m.table;
  fakeip_enabled = set_bool s (codes "fakeip_enabled") m.fakeip_enabled;
  fakeip_range = set_text same_text s (codes "fakeip_range") m.fakeip_range;
  resolve_for_subnet_rules =
      set_bool s (codes "resolve_for_subnet_rules") m.resolve_for_subnet_rules;
  nft_counters = set_bool s (codes "nft_counters") m.nft_counters;
  routing_mode = set_text same_text s (codes "routing_mode") m.routing_mode;
  default_outbound = set_text same_text s (codes "default_outbound") m.default_outbound;
  default_action = set_text same_text s (codes "default_action") m.default_action;
  update_via = set_text lower_trimmed s (codes "update_via") m.update_via;
  update_outbound = set_present s (codes "update_outbound") m.update_outbound;
}

-- `cleanList(appendList(s.lists[key], splitListOption(s.options[key])))`, and for domains.
abbrev pub listed : Section → Str → List Str
listed s key = clean_list (append_list (list_of s key) (split_list_option (option_of s key)))

abbrev domains : Section → Str → List Str
domains s key =
    clean_domain_list (append_list (list_of s key) (split_list_option (option_of s key)))

abbrev pub all_lower_trimmed : List Str → List Str
all_lower_trimmed [] = []
all_lower_trimmed (v ∷ vs) = lower_trimmed v ∷ all_lower_trimmed vs

abbrev simple_outbound : Section → Str → Str
simple_outbound s old = elim (lookup (codes "simple_outbound") s.options) [
  | none ↦ old
  | some v ↦ if str_eq (trim_space v) (codes "proxy_default") then codes "direct" else trim_space v
]

-- `applySimpleRule`.
unfoldable pub apply_simple_rule : Main → Section → Main
apply_simple_rule m s =
    let r = effective_simple_rule m in
    record m {
      simple_rule = record r {
        action = set_text lower_trimmed s (codes "simple_action") r.action;
        outbound = simple_outbound s r.outbound;
        domain_equals = domains s (codes "simple_domain_equals");
        domain_contains = domains s (codes "simple_domain_contains");
        domain_starts_with = domains s (codes "simple_domain_starts_with");
        domain_ends_with = domains s (codes "simple_domain_ends_with");
        exclude_domain_equals = domains s (codes "simple_exclude_domain_equals");
        exclude_domain_contains = domains s (codes "simple_exclude_domain_contains");
        exclude_domain_starts_with = domains s (codes "simple_exclude_domain_starts_with");
        exclude_domain_ends_with = domains s (codes "simple_exclude_domain_ends_with");
        domain_files = listed s (codes "simple_domain_file");
        ip_cidrs = listed s (codes "simple_ip_cidr");
        files = clean_list (
            append_list
              (append_list (list_of s (codes "simple_ip_file")) (list_of s (codes "simple_file")))
              (split_list_option (option_of s (codes "simple_ip_file"))));
        domain_providers = listed s (codes "simple_domain_provider");
        ip_providers = listed s (codes "simple_ip_provider");
        providers = listed s (codes "simple_provider");
        proto = all_lower_trimmed (listed s (codes "simple_proto"));
        src_ports = listed s (codes "simple_src_port");
        dst_ports = listed s (codes "simple_dst_port");
        dns_mode = codes "auto";
      };
    }

-- `if values, ok := s.lists[key]; ok { field = cleanList(values) }`.
abbrev set_list : Section → Str → List Str → List Str
set_list s key old = elim (lookup key s.lists) [ none ↦ old | some values ↦ clean_list values ]

-- `applyMain`.
unfoldable pub apply_main : Main → Section → Main
apply_main m s =
    let dns =
      sync_legacy_dns_fields (real_dns_defaults (legacy_dns_options (dns_options m s) s) s) in
    let rest = apply_simple_rule (other_options dns s) s in
    record rest {
      lan_subnets = set_list s (codes "lan_subnet") rest.lan_subnets;
      lan_ifaces = set_list s (codes "lan_iface") rest.lan_ifaces;
    }
