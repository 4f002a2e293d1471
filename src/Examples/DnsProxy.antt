-- ===== src/Examples/DnsProxy.antt =====
-- internal/dnsproxy/dnsproxy.go on concrete messages, rules and pools.
use zakop.Prelude.{
  ◌+◌, take, ◌≤◌, ◌≡◌, ◌↔◌, ◌⊎◌, refl, ap, true, false, List, [], ◌∷◌, ◌++◌, none, some, arith,
  length,
}
use zakop.Prelude.Int.{pos}
use zakop.Text.{
  Str, codes, str_eq, join, to_lower, lower_rune, trim_space, trim_left, trim_right, is_space, cut,
  split, contains, has_prefix,
}
use zakop.Dict.{lookup}
use zakop.Config.Types.{Rule}
use zakop.RuleEngine.{
  domain_decision, match_domain, normalize_domain, match_any_domain, domain_excluded,
  has_domain_includes, effective_dns_mode,
}
use zakop.DnsProxy.Message.{
  Bytes, Query, parse_query, decode_name, decode_labels, encode_labels, nodata_response,
  nxdomain_response, servfail_response,
}
use zakop.DnsProxy.Name.{
  AreLabels, parse_query_bounds, parse_query-encode_labels, decode_labels_fuel,
}
use zakop.DnsProxy.Response.{IsAnswer, responses-IsAnswer, responses-parse_query}
use zakop.DnsProxy.Edns.{
  strip_options, strip_from, ecs_ipv4_from_options, client_subnet_ipv4, subnet_from, skip_questions,
  question_end_at, skip_records, resource_record, ecs_from, ecs_address, strip_client_subnet_option,
  strip_records, strip_record,
}
use zakop.DnsProxy.Forwarded.{
  strip_client_subnet_option_lem, parse_query-strip_client_subnet_option,
}
use zakop.Text.Number.{itoa, digits_onto, number, number_from, digit_value}
use zakop.Net.{ipv4_string, is_loopback, net_contains}
use zakop.Net.Parse.{parse_ip, parse_subnet}
use zakop.Policy.Cidr.{v4, other}
use zakop.DnsProxy.Options.{
  EdnsOption, options_bytes, without_subnet, has_subnet, strip_options-options_bytes,
  strip_options_no_subnet,
}
use zakop.DnsProxy.Routing.{Proxy, is_lan_client, client_policy, upstream_for}
use zakop.DnsProxy.Forward.{
  Network, Pools, new_pools, reserve_forward, acquire, handle_query, read_tcp_dns, write_tcp_dns,
}
use zakop.DnsProxy.Decision.{Governed, upstream_for_fake, handle_query_blocked, handle_query_pools}
use zakop.DnsProxy.Pools.{Traffic, start, begin, Reach, here, next, to_fake, to_real, Reach-bounds}
use zakop.DnsProxy.Framing.{read_tcp_dns-write_tcp_dns}

abbrev no_rule : Rule
no_rule = record {
  name = codes "ads";
  enabled = true;
  priority = pos 1;
  action = codes "block";
  outbound = [];
  dns_mode = codes "auto";
  domain_equals = codes "ads.net" ∷ [];
  domain_contains = [];
  domain_starts_with = [];
  domain_ends_with = [];
  exclude_domain_equals = [];
  exclude_domain_contains = [];
  exclude_domain_starts_with = [];
  exclude_domain_ends_with = [];
  domain_files = [];
  ip_cidrs = [];
  files = [];
  domain_providers = [];
  ip_providers = [];
  providers = [];
  proto = [];
  src_ports = [];
  dst_ports = [];
}

abbrev proxy : Proxy
proxy = record {
  listen = codes "127.0.0.1:5354";
  fake_upstream = codes "127.0.0.1:5355";
  real_direct_upstream = codes "127.0.0.1:5356";
  real_proxy_upstream = codes "127.0.0.1:5357";
  real_dns_mode = codes "direct";
  routing_mode = codes "rules";
  client_policies = (codes "192.168.1.9", codes "direct") ∷ [];
  lan_subnets = v4 0xc0a8_0100 24 ∷ [];
  local_ips = [];
  rules = no_rule ∷ [];
  filter_aaaa_for_fakeip = true;
}

abbrev client : Str
client = codes "192.168.1.7"

abbrev header : Bytes
header = 0x12 ∷ 0x34 ∷ 1 ∷ 0 ∷ 0 ∷ 1 ∷ 0 ∷ 0 ∷ 0 ∷ 0 ∷ 0 ∷ 0 ∷ []

abbrev labels : List Bytes
labels = codes "ads" ∷ codes "net" ∷ []

-- The A query of ads.net, and the question in it.
abbrev message : Bytes
message = header ++ (encode_labels labels ++ (0 ∷ 1 ∷ 0 ∷ 1 ∷ []))

abbrev question : Query
question = record { name = codes "ads.net"; type = 1; question_end = 25 }

message-parse : parse_query message ≡ some question
unfolding parse_query decode_name decode_labels join
message-parse = refl

-- A name that points at itself is an error.
loop-parse : parse_query (header ++ (0xc0 ∷ 12 ∷ 0 ∷ 1 ∷ 0 ∷ 1 ∷ [])) ≡ none
unfolding parse_query decode_name decode_labels join
loop-parse = refl

client-default : client_policy proxy client ≡ codes "default"
unfolding client_policy lookup str_eq
client-default = refl

-- The subnet of the proxy, in both notations, and one of IPv6.
subnets :
    (parse_subnet (codes "192.168.1.7/24") ≡ some (v4 0xc0a8_0100 24))
    × (parse_subnet (codes "::ffff:192.168.1.0/120") ≡ some (v4 0xc0a8_0100 24))
    × (parse_subnet (codes "fd00::/8") ≡ some other)
unfolding parse_subnet parse_ip cut contains has_prefix split number number_from digit_value
subnets = (refl, refl, refl)

lan_clients :
    (is_lan_client proxy client ≡ true) × (is_lan_client proxy (codes "192.168.2.7") ≡ false)
unfolding is_lan_client net_contains is_loopback ipv4_string join itoa digits_onto parse_ip contains
    has_prefix split number number_from digit_value trim_space trim_left trim_right is_space cut
lan_clients = (refl, refl)

client-Governed : Governed proxy client
client-Governed = record {
  on_lan = lan_clients.0;
  not_direct = λ e. absurd (omega (arith, ap length e, ap length client-default));
  not_global = λ e. absurd (omega (arith, ap length e));
}

blocked : (domain_decision proxy.rules question.name).action ≡ codes "block"
unfolding domain_decision match_domain normalize_domain match_any_domain domain_excluded
    has_domain_includes effective_dns_mode to_lower lower_rune trim_space trim_right str_eq
blocked = refl

upstream_for_fake_example : (upstream_for proxy message client ≡ proxy.fake_upstream) ↔ (
    (q : Query) × (parse_query message ≡ some q)
    × Governed proxy client
    × ((domain_decision proxy.rules q.name).action ≡ codes "proxy")
    × ((domain_decision proxy.rules q.name).dns_mode ≡ codes "fakeip"))
upstream_for_fake_example =
    upstream_for_fake proxy message client (λ e. ground arith) (λ e. ground arith)

-- An upstream that always replies with the same bytes.
abbrev echo : Network
echo msg upstream = some (1 ∷ 2 ∷ [])

handle_query_blocked_example :
    handle_query echo proxy new_pools message client
    ≡ (some (nxdomain_response message 25), new_pools)
handle_query_blocked_example =
    handle_query_blocked echo proxy new_pools message client question message-parse client-Governed
      blocked

handle_query_pools_example : (handle_query echo proxy new_pools message client).1 ≡ new_pools
handle_query_pools_example = handle_query_pools echo proxy new_pools message client

abbrev one_taken : Pools
one_taken = record {
  fake = some (record { capacity = 32; used = 1 });
  real = some (record { capacity = 96; used = 0 });
}

one_taken-reserve : reserve_forward proxy new_pools proxy.fake_upstream ≡ some one_taken
unfolding reserve_forward acquire str_eq
one_taken-reserve = refl

abbrev busy : Traffic
busy = record { pools = one_taken; in_flight = proxy.fake_upstream ∷ [] }

busy-Reach : Reach proxy busy
busy-Reach = next here (begin start proxy.fake_upstream one_taken one_taken-reserve)

Reach-bounds_example :
    (to_fake proxy busy.in_flight ≤ 32)
    × (to_real proxy busy.in_flight ≤ 96)
    × (busy.pools.fake ≡ some (record { capacity = 32; used = to_fake proxy busy.in_flight }))
    × (busy.pools.real ≡ some (record { capacity = 96; used = to_real proxy busy.in_flight }))
Reach-bounds_example = Reach-bounds proxy busy busy-Reach

parse_query_bounds_example : (17 ≤ 25) × (25 ≤ length message)
parse_query_bounds_example = parse_query_bounds message message-parse

labels-AreLabels : AreLabels labels
labels-AreLabels = (omega arith, omega arith, (omega arith, omega arith, tt))

parse_query-encode_labels_example :
    parse_query message
    ≡ some (record { name = join labels (codes "."); type = 1; question_end = 25 })
parse_query-encode_labels_example =
    parse_query-encode_labels header [] labels 0 1 0 1 refl refl labels-AreLabels

responses-IsAnswer_example :
    IsAnswer 0 message 25 (nodata_response message 25)
    × IsAnswer 3 message 25 (nxdomain_response message 25)
    × ((resp : Bytes) × (servfail_response message ≡ some resp) × IsAnswer 2 message 25 resp)
responses-IsAnswer_example = responses-IsAnswer message question message-parse

responses-parse_query_example :
    (parse_query (nodata_response message 25) ≡ parse_query message)
    × (parse_query (nxdomain_response message 25) ≡ parse_query message)
    × ((resp : Bytes) × (servfail_response message ≡ some resp)
        × (parse_query resp ≡ parse_query message))
responses-parse_query_example =
    responses-parse_query header [] labels 0 1 0 1 refl refl labels-AreLabels

-- A cookie and the client subnet 10.1.2.0/24.
abbrev two_options : List EdnsOption
two_options =
    record { code_hi = 0; code_lo = 10; len_hi = 0; len_lo = 2; value = 7 ∷ 9 ∷ [] }
    ∷ record {
      code_hi = 0;
      code_lo = 8;
      len_hi = 0;
      len_lo = 7;
      value = 0 ∷ 1 ∷ 24 ∷ 0 ∷ 10 ∷ 1 ∷ 2 ∷ [];
    }
    ∷ []

strip_options-options_bytes_example :
    strip_options (options_bytes two_options)
    ≡ some (options_bytes (without_subnet two_options), has_subnet two_options)
strip_options-options_bytes_example = strip_options-options_bytes two_options (refl, (refl, tt))

abbrev cookie : Bytes
cookie = 0 ∷ 10 ∷ 0 ∷ 2 ∷ 7 ∷ 9 ∷ []

two_options-strip : strip_options (options_bytes two_options) ≡ some (cookie, true)
unfolding strip_options strip_from
two_options-strip = refl

strip_options_no_subnet_example :
    (ecs_ipv4_from_options cookie ≡ [])
    × (strip_options cookie ≡ some (cookie, false))
    × (length cookie ≤ length (options_bytes two_options))
    × ((true ≡ true) ⊎ (cookie ≡ options_bytes two_options))
strip_options_no_subnet_example =
    strip_options_no_subnet (options_bytes two_options) cookie true two_options-strip

read_tcp_dns-write_tcp_dns_example :
    (sent : Bytes) × (write_tcp_dns message ≡ some sent)
    × (read_tcp_dns (sent ++ (1 ∷ [])) ≡ some (message, 1 ∷ []))
read_tcp_dns-write_tcp_dns_example =
    read_tcp_dns-write_tcp_dns message (1 ∷ []) (omega arith) (omega arith)

abbrev opt_record : Bytes
opt_record =
    0 ∷ 0 ∷ 41 ∷ 16 ∷ 0 ∷ 0 ∷ 0 ∷ 0 ∷ 0 ∷ 0 ∷ 12 ∷ 0 ∷ 8 ∷ 0 ∷ 8 ∷ 0 ∷ 1 ∷ 32 ∷ 0 ∷ 10 ∷ 1 ∷ 2 ∷ 3
    ∷ []

-- The same question with an OPT record that holds the client subnet 10.1.2.3/32.
abbrev with_subnet : Bytes
with_subnet =
    (0x12 ∷ 0x34 ∷ 1 ∷ 0 ∷ 0 ∷ 1 ∷ 0 ∷ 0 ∷ 0 ∷ 0 ∷ 0 ∷ 1 ∷ [])
    ++ (encode_labels labels ++ (0 ∷ 1 ∷ 0 ∷ 1 ∷ opt_record))

with_subnet-parse : parse_query with_subnet ≡ some question
unfolding parse_query decode_name decode_labels join
with_subnet-parse = refl

with_subnet-strip :
    (client_subnet_ipv4 with_subnet ≡ codes "10.1.2.3")
    × (length (strip_client_subnet_option with_subnet) + 12 ≡ length with_subnet)
unfolding client_subnet_ipv4 subnet_from skip_questions question_end_at skip_records resource_record
    decode_name decode_labels join ecs_ipv4_from_options ecs_from ecs_address ipv4_string itoa
    strip_client_subnet_option strip_records strip_record strip_options strip_from
with_subnet-strip = (refl, refl)

strip_client_subnet_option_lem_example :
    take 25 (strip_client_subnet_option with_subnet) ≡ take 25 with_subnet
strip_client_subnet_option_lem_example =
    strip_client_subnet_option_lem with_subnet question with_subnet-parse

parse_query-strip_client_subnet_option_example :
    parse_query (strip_client_subnet_option with_subnet) ≡ parse_query with_subnet
parse_query-strip_client_subnet_option_example =
    parse_query-strip_client_subnet_option
      (0x12 ∷ 0x34 ∷ 1 ∷ 0 ∷ 0 ∷ 1 ∷ 0 ∷ 0 ∷ 0 ∷ 0 ∷ 0 ∷ 1 ∷ []) opt_record labels 0 1 0 1 refl refl
      labels-AreLabels

decode_labels_fuel_example :
    decode_labels 9 (length message + 1) message 12 [] ≡ decode_labels 9 1000 message 12 []
decode_labels_fuel_example =
    decode_labels_fuel 9 (length message + 1) 1000 message 12 [] (omega arith) (omega arith)
      (omega arith) (omega arith)
