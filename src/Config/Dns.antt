-- ===== src/Config/Dns.antt =====
-- internal/config/config.go: the real DNS upstream that the main section describes.
use zakop.Prelude.{
  ℕ, zero, suc, Bool, true, false, not, ◌&&◌, ◌||◌, List, [], ◌∷◌, ◌++◌, Option, none, some, ◌==◌,
  if◌then◌else◌,
}
use zakop.Prelude.Int.{ℤ, pos, negsuc, ltb_ℤ}
use zakop.Text.{Str, codes, str_eq, to_lower, trim_space, cut, split}
use zakop.Text.Number.{itoa, atoi}
use zakop.Config.Types.{Main, DnsUpstream}
use zakop.Config.Access.{is_blank, first_non_empty}
use zakop.Config.Lists.{is_empty}

abbrev pub is_zero : ℤ → Bool
is_zero (pos zero) = true
is_zero (pos (suc n)) = false
is_zero (negsuc n) = false

-- `normalizeDNSProtocol`.
unfoldable pub normalize_dns_protocol : Str → Str
normalize_dns_protocol protocol =
    let p = to_lower (trim_space protocol) in
    if is_empty p || str_eq p (codes "udp")
    then codes "udp"
    else if str_eq p (codes "tcp")
    then codes "tcp"
    else if str_eq p (codes "tls") || str_eq p (codes "dot")
    then codes "tls"
    else if str_eq p (codes "https") || str_eq p (codes "doh")
    then codes "https"
    else p

-- `presetDNSUpstream`: the host, the TLS name and the path.
unfoldable pub preset_dns_upstream : Str → Str → Str × Str × Str
preset_dns_upstream preset protocol =
    let p = normalize_dns_protocol protocol in
    if str_eq (trim_space preset) (codes "google")
    then if str_eq p (codes "tls") || str_eq p (codes "https")
      then (codes "dns.google", codes "dns.google", codes "/dns-query")
      else (codes "8.8.8.8", codes "dns.google", codes "/dns-query")
    else (codes "1.1.1.1", codes "cloudflare-dns.com", codes "/dns-query")

-- `defaultDNSPort`.
unfoldable pub default_dns_port : Str → ℤ
default_dns_port protocol =
    let p = normalize_dns_protocol protocol in
    if str_eq p (codes "tls") then pos 853 else if str_eq p (codes "https") then pos 443 else pos 53

-- `net.SplitHostPort`; an error is `none`.
abbrev has_rune : ℕ → Str → Bool
has_rune c [] = false
has_rune c (d ∷ s) = if d == c then true else has_rune c s

abbrev bracketed : Str → Option (Str × Str) → Option (Str × Str)
bracketed rest none = none
bracketed rest (some (host, [])) = none
bracketed rest (some (host, c ∷ port)) =
    if not (c == b':') || has_rune b':' port || has_rune b'[' rest || has_rune b']' port
    then none
    else some (host, port)

abbrev plain_pair : Str → Option (Str × Str) → Option (Str × Str)
plain_pair text none = none
plain_pair text (some (host, port)) =
    if has_rune b':' port || has_rune b'[' text || has_rune b']' text
    then none
    else some (host, port)

unfoldable pub split_host_port : Str → Option (Str × Str)
split_host_port [] = none
split_host_port (c ∷ rest) =
    if c == b'['
    then bracketed rest (cut b']' rest)
    else plain_pair (c ∷ rest) (cut b':' (c ∷ rest))

-- `splitHostPortValue`; `none` is the result false.
unfoldable pub split_host_port_value : Str → Option (Str × ℤ)
split_host_port_value value = elim (split_host_port (trim_space value)) [
  | none ↦ none
  | some (host, port) ↦ elim (atoi port) [ none ↦ none | some n ↦ some (host, n) ]
]

-- The last case of `splitOptionalHostPort`: one colon with a positive number behind it.
abbrev one_colon : List Str → Option (Str × ℤ)
one_colon (host ∷ port ∷ []) = elim (atoi port) [
  | none ↦ none
  | some n ↦ if ltb_ℤ (pos 0) n then some (host, n) else none
]
one_colon _ = none

-- `splitOptionalHostPort`; `none` is the result false, whose other values no caller uses.
unfoldable pub split_optional_host_port : Str → Option (Str × ℤ)
split_optional_host_port raw =
    let value = trim_space raw in
    if is_empty value then none else elim (split_host_port_value value) [
      | some pair ↦ some pair
      | none ↦ one_colon (split b':' value)
    ]

-- The ends of `legacyDNSUpstream` and `DNSUpstream`.
abbrev pub from_real_upstream : Main → DnsUpstream → DnsUpstream
from_real_upstream m u =
    if not (is_empty u.host) then u else elim (split_host_port_value m.real_dns_upstream) [
      | none ↦ u
      | some (host, port) ↦ record u { host = host; port = if is_zero u.port then port else u.port }
    ]

abbrev pub with_defaults : Str → DnsUpstream → DnsUpstream
with_defaults protocol u =
    let v : DnsUpstream =
      if is_zero u.port then record u { port = default_dns_port protocol } else u in
    if str_eq protocol (codes "https") && is_empty v.path
    then record v { path = codes "/dns-query" }
    else v

abbrev pub or_default : Str → Str → Str
or_default fallback value = if is_empty value then fallback else value

abbrev pub of_preset : Str → Str → DnsUpstream
of_preset preset protocol =
    let (host, tls_name, path) = preset_dns_upstream preset protocol in
    record {
      preset = preset;
      protocol = protocol;
      host = host;
      port = default_dns_port protocol;
      tls_name = tls_name;
      path = path;
    }

-- `legacyDNSUpstream`.
unfoldable pub legacy_dns_upstream : Main → DnsUpstream
legacy_dns_upstream m =
    let protocol = or_default (codes "udp") (normalize_dns_protocol m.dns_upstream_protocol) in
    let preset = or_default (codes "custom") (trim_space m.dns_upstream_preset) in
    let fields : DnsUpstream = record {
      preset = preset;
      protocol = protocol;
      host = trim_space m.dns_upstream_host;
      port = m.dns_upstream_port;
      tls_name = trim_space m.dns_upstream_tls_name;
      path = trim_space m.dns_upstream_path;
    } in
    let u : DnsUpstream =
      if not (str_eq preset (codes "custom")) then of_preset preset protocol else fields in
    with_defaults protocol (from_real_upstream m u)

-- The host and the port of the main section, where the host may hold a port.
abbrev real_server : Main → Str × ℤ
real_server m =
    let host = trim_space m.real_dns_server in
    elim (split_optional_host_port host) [
      | none ↦ (host, m.real_dns_server_port)
      | some (h, p) ↦ (h, if ltb_ℤ (pos 0) p then p else m.real_dns_server_port)
    ]

abbrev pub from_legacy : Main → DnsUpstream → DnsUpstream
from_legacy m u =
    let l = legacy_dns_upstream m in
    if is_empty u.host
    then record u {
      host = l.host;
      port = l.port;
      tls_name = l.tls_name;
      path = l.path;
      preset = l.preset;
    }
    else u

abbrev pub custom_upstream : Main → Str → Str → DnsUpstream
custom_upstream m preset protocol = record {
  preset = preset;
  protocol = protocol;
  host = (real_server m).0;
  port = (real_server m).1;
  tls_name = trim_space m.real_dns_server_name;
  path = trim_space m.real_dns_path;
}

-- `Main.DNSUpstream`.
unfoldable pub dns_upstream : Main → DnsUpstream
dns_upstream m =
    let protocol = or_default (codes "udp") (
      normalize_dns_protocol
        (first_non_empty (m.real_dns_transport ∷ m.dns_upstream_protocol ∷ []))) in
    let preset =
      or_default (codes "custom")
        (trim_space (first_non_empty (m.dns_upstream_preset ∷ codes "custom" ∷ []))) in
    if not (str_eq preset (codes "custom"))
    then of_preset preset protocol
    else with_defaults protocol
        (from_real_upstream m (from_legacy m (custom_upstream m preset protocol)))

-- `net.JoinHostPort(host, strconv.Itoa(port))`, by `DNSUpstream.Address`.
abbrev int_text : ℤ → Str
int_text (pos n) = itoa n
int_text (negsuc n) = b'-' ∷ itoa (suc n)

unfoldable pub address_of : DnsUpstream → Str
address_of u =
    if has_rune b':' u.host
    then b'[' ∷ (u.host ++ (b']' ∷ b':' ∷ int_text u.port))
    else u.host ++ (b':' ∷ int_text u.port)

-- `syncLegacyDNSFields`.
unfoldable pub sync_legacy_dns_fields : Main → Main
sync_legacy_dns_fields m =
    let u = dns_upstream m in
    if is_empty u.host then m else record m {
      real_dns_upstream = address_of u;
      dns_upstream_protocol = u.protocol;
      dns_upstream_host = u.host;
      dns_upstream_port = u.port;
      dns_upstream_tls_name = u.tls_name;
      dns_upstream_path = u.path;
      dns_upstream_preset =
          if is_blank m.dns_upstream_preset then codes "custom" else m.dns_upstream_preset;
      real_dns_transport =
          if is_blank m.real_dns_transport then u.protocol else m.real_dns_transport;
      real_dns_server = if is_blank m.real_dns_server then u.host else m.real_dns_server;
      real_dns_server_port =
          if is_zero m.real_dns_server_port then u.port else m.real_dns_server_port;
      real_dns_path =
          if is_blank m.real_dns_path && str_eq u.protocol (codes "https")
          then u.path
          else m.real_dns_path;
    }
