-- ===== src/Config/Types.antt =====
-- internal/config/config.go: the configuration as `Parse` builds it. An `int` is an integer of any
-- size: the values come from `strconv.Atoi` or are indices.
use zakop.Prelude.{Bool, List}
use zakop.Prelude.Int.{ℤ}
use zakop.Text.{Str}

pub record Client : Type 0 where
  pub name : Str
  pub ip : Str
  pub policy : Str
  pub outbound : Str

pub record Rule : Type 0 where
  pub name : Str
  pub enabled : Bool
  pub priority : ℤ
  pub action : Str
  pub outbound : Str
  pub dns_mode : Str
  pub domain_equals : List Str
  pub domain_contains : List Str
  pub domain_starts_with : List Str
  pub domain_ends_with : List Str
  pub exclude_domain_equals : List Str
  pub exclude_domain_contains : List Str
  pub exclude_domain_starts_with : List Str
  pub exclude_domain_ends_with : List Str
  pub domain_files : List Str
  pub ip_cidrs : List Str
  pub files : List Str
  pub domain_providers : List Str
  pub ip_providers : List Str
  pub providers : List Str
  pub proto : List Str
  pub src_ports : List Str
  pub dst_ports : List Str

pub record Main : Type 0 where
  pub enabled : Bool
  pub dns_listen : Str
  pub real_dns_upstream : Str
  pub real_dns_mode : Str
  pub real_dns_outbound : Str
  pub real_dns_transport : Str
  pub real_dns_server : Str
  pub real_dns_server_port : ℤ
  pub real_dns_server_name : Str
  pub real_dns_path : Str
  pub dns_upstream_preset : Str
  pub dns_upstream_protocol : Str
  pub dns_upstream_host : Str
  pub dns_upstream_port : ℤ
  pub dns_upstream_tls_name : Str
  pub dns_upstream_path : Str
  pub manage_dnsmasq : Bool
  pub filter_aaaa_for_fakeip : Bool
  pub singbox_bin : Str
  pub singbox_dns : Str
  pub singbox_dns_fakeip : Str
  pub singbox_dns_real_direct : Str
  pub singbox_dns_real_proxy : Str
  pub pool_controller : Str
  pub tproxy_port : ℤ
  pub mark : Str
  pub table : ℤ
  pub fakeip_enabled : Bool
  pub fakeip_range : Str
  pub resolve_for_subnet_rules : Bool
  pub nft_counters : Bool
  pub default_action : Str
  pub routing_mode : Str
  pub default_outbound : Str
  pub update_via : Str
  pub update_outbound : Str
  pub simple_rule : Rule
  pub lan_subnets : List Str
  pub lan_ifaces : List Str

pub record Provider : Type 0 where
  pub name : Str
  pub label : Str
  pub enabled : Bool
  pub type : Str
  pub source : Str
  pub url : Str
  pub script_path : Str
  pub local_path : Str
  pub auto_update : Bool
  pub update_schedule : Str
  pub update_hour : ℤ
  pub update_minute : ℤ
  pub update_interval_minutes : ℤ
  pub update_via : Str
  pub update_outbound : Str
  pub last_update : Str
  pub item_count : ℤ
  pub files : List Str

pub record Outbound : Type 0 where
  pub enabled : Bool
  pub tag : Str
  pub label : Str
  pub type : Str
  pub server : Str
  pub port : ℤ
  pub uuid : Str
  pub flow : Str
  pub tls : Bool
  pub server_name : Str
  pub reality : Bool
  pub reality_public_key : Str
  pub reality_short_id : Str
  pub alpn : List Str
  pub tls_min_version : Str
  pub tls_max_version : Str
  pub tls_cipher_suites : List Str
  pub ech : Bool
  pub ech_config : List Str
  pub ech_config_path : Str
  pub utls_fingerprint : Str
  pub transport : Str
  pub packet_encoding : Str
  pub grpc_service_name : Str
  pub http_host : List Str
  pub httpupgrade_host : Str
  pub http_path : Str
  pub http_method : Str
  pub ws_host : Str
  pub ws_path : Str
  pub ws_early_data : ℤ
  pub ws_early_data_header : Str
  pub password : Str
  pub method : Str
  pub insecure : Bool
  pub hysteria_obfs_type : Str
  pub hysteria_obfs_password : Str
  pub hysteria_up_mbps : ℤ
  pub hysteria_down_mbps : ℤ

pub record OutboundPool : Type 0 where
  pub tag : Str
  pub label : Str
  pub outbounds : List Str
  pub check_url : Str
  pub check_interval : ℤ

pub record Subscription : Type 0 where
  pub name : Str
  pub label : Str
  pub enabled : Bool
  pub url : Str
  pub auto_update : Bool
  pub update_schedule : Str
  pub update_hour : ℤ
  pub update_minute : ℤ
  pub update_interval_minutes : ℤ
  pub update_via : Str
  pub update_outbound : Str
  pub last_update : Str
  pub node_count : ℤ

pub record Config : Type 0 where
  pub main : Main
  pub clients : List Client
  pub rules : List Rule
  pub providers : List Provider
  pub outbounds : List Outbound
  pub outbound_pools : List OutboundPool
  pub subscriptions : List Subscription
  pub warnings : List Str

pub record DnsUpstream : Type 0 where
  pub preset : Str
  pub protocol : Str
  pub host : Str
  pub port : ℤ
  pub tls_name : Str
  pub path : Str
