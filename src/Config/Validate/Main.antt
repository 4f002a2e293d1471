-- ===== src/Config/Validate/Main.antt =====
-- internal/config/config.go: the checks of `Validate` on the main section.
use zakop.Prelude.{
  ℕ, ◌+◌, ◌-◌, ◌*◌, ◌/◌, ◌%◌, Bool, true, false, not, ◌&&◌, ◌||◌, List, [], ◌∷◌, Option, none, some,
  leb, ◌==◌, if◌then◌else◌,
}
use zakop.Prelude.Int.{ℤ, pos, ltb_ℤ, leb_ℤ, eqb_ℤ}
use zakop.Text.{Str, codes, str_eq, to_lower, trim_left, trim_right, trim_space, has_prefix, cut}
use zakop.Text.Number.{atoi, number}
use zakop.Dict.{contains_text}
use zakop.Net.{IpAddr, ip4, ip6, is_loopback, net_contains}
use zakop.Net.Parse.{parse_ip, parse_cidr}
use zakop.Policy.Cidr.{IpNet, v4, other}
use zakop.Config.Types.{Main, DnsUpstream}
use zakop.Config.Access.{
  is_blank, first_non_empty, singbox_dns_fakeip_addr, singbox_dns_real_direct_addr,
  singbox_dns_real_proxy_addr,
}
use zakop.Config.Dns.{split_host_port, dns_upstream}
use zakop.Config.Lists.{is_empty}
use zakop.Config.Fault.{Fault, fault, fail_if, ◌<|>◌, one_of, check_each}

-- A number that is no port.
abbrev pub no_port : ℤ → Bool
no_port n = leb_ℤ n (pos 0) || ltb_ℤ (pos 65535) n

abbrev pub is_none {ℓ} : {A : Type ℓ} → Option A → Bool
is_none none = true
is_none (some a) = false

-- `net.ParseCIDR` gives an address that has an IPv4 form.
unfoldable pub is_ipv4_subnet : Str → Bool
is_ipv4_subnet cidr = elim (parse_cidr cidr) [ none ↦ false | some (ip, net) ↦ not (is_none ip) ]

unfoldable pub check_lan_subnet : Str → Option Fault
check_lan_subnet cidr = fail_if (not (is_ipv4_subnet cidr)) (fault "invalid lan_subnet %q: %w" cidr)

unfoldable pub check_lan_iface : Str → Option Fault
check_lan_iface iface = fail_if (is_blank iface) (fault "lan_iface must not be empty" [])

-- The loop over `dnsListeners`, in the order in which they are written; Go ranges over the map in
-- any order, which decides only which of several errors is returned. `seen` are the keys of
-- `seenDNSListeners`.
unfoldable pub check_listeners : List Str → List (Str × Str) → Option Fault
check_listeners seen [] = none
check_listeners seen ((name, addr) ∷ listeners) =
    fail_if (is_none (split_host_port addr)) (fault "invalid %s %q: %w" name)
    <|> fail_if (contains_text seen addr) (fault "%s must not duplicate %s" name)
    <|> check_listeners (addr ∷ seen) listeners

abbrev listeners : Main → List (Str × Str)
listeners m =
    (codes "singbox_dns_fakeip", singbox_dns_fakeip_addr m)
    ∷ (codes "singbox_dns_real_direct", singbox_dns_real_direct_addr m)
    ∷ (codes "singbox_dns_real_proxy", singbox_dns_real_proxy_addr m)
    ∷ []

abbrev listener_addresses : Main → List Str
listener_addresses m =
    m.dns_listen
    ∷ singbox_dns_fakeip_addr m
    ∷ singbox_dns_real_direct_addr m
    ∷ singbox_dns_real_proxy_addr m
    ∷ []

-- The host of an address, and its port; an error leaves both empty.
abbrev pub host_and_port : Str → Str × Str
host_and_port addr = elim (split_host_port addr) [ none ↦ ([], []) | some pair ↦ pair ]

unfoldable pub check_pool_controller : Main → Option Fault
check_pool_controller m =
    fail_if (is_none (split_host_port m.pool_controller))
      (fault "invalid pool_controller %q: %w" m.pool_controller)
    <|> fail_if
        (not (one_of (codes "127.0.0.1" ∷ codes "::1" ∷ []) (host_and_port m.pool_controller).0))
        (fault "pool_controller must listen on loopback" [])
    <|> fail_if (contains_text (listener_addresses m) m.pool_controller)
        (fault "pool_controller must not duplicate %s" [])

-- `strings.Trim(s, "[]")`.
abbrev is_bracket : ℕ → Bool
is_bracket c = c == b'[' || c == b']'

abbrev trim_brackets : Str → Str
trim_brackets s = trim_right is_bracket (trim_left is_bracket s)

abbrev same_ip : Option IpAddr → Option IpAddr → Bool
same_ip (some (ip4 a)) (some (ip4 b)) = a == b
same_ip (some (ip6 g)) (some (ip6 h)) = str_eq g h
same_ip _ _ = false

-- `sameHost`.
unfoldable pub same_host : Str → Str → Bool
same_host a b =
    let x = trim_brackets (to_lower (trim_space a)) in
    let y = trim_brackets (to_lower (trim_space b)) in
    str_eq x y || same_ip (parse_ip x) (parse_ip y)

-- `network.Contains` of a network in the notation of IPv6: it holds IPv4 addresses if its mask
-- leaves them mapped.
abbrev mapped_contains : Str → ℕ → ℕ → Bool
mapped_contains cidr a router = elim (cut b'/' cidr) [
  | none ↦ false
  | some (addr, len) ↦ elim (number 10 len) [
    | none ↦ false
    | some n ↦ leb 96 n && net_contains (v4 a (n - 96)) router
  ]
]

-- `base4` with its last byte counted up.
abbrev next_address : ℕ → ℕ
next_address a = a / 256 * 256 + (a % 256 + 1) % 256

abbrev router_of : Str → Option (Option ℕ × IpNet) → ℕ → Bool
router_of cidr none ip = false
router_of cidr (some (none, net)) ip = false
router_of cidr (some (some a, v4 b ones)) ip =
    net_contains (v4 b ones) (next_address a) && next_address a == ip
router_of cidr (some (some a, other)) ip =
    mapped_contains cidr a (next_address a) && next_address a == ip

-- `routerLANIP`, for the IPv4 form of an address.
unfoldable pub router_lan_ip : List Str → ℕ → Bool
router_lan_ip [] ip = false
router_lan_ip (cidr ∷ cidrs) ip = router_of cidr (parse_cidr cidr) ip || router_lan_ip cidrs ip

-- The loop at the end of `validateRealDNSNoLoop`, in the order in which the map is written.
abbrev points_back : Str → ℤ → Str → Bool
points_back host port addr = elim (split_host_port addr) [
  | none ↦ false
  | some (addr_host, text) ↦ elim (atoi text) [
    | none ↦ false
    | some addr_port ↦ eqb_ℤ port addr_port && same_host host addr_host
  ]
]

unfoldable pub check_points_back : Str → ℤ → List (Str × Str) → Option Fault
check_points_back host port [] = none
check_points_back host port ((name, addr) ∷ addrs) =
    fail_if (points_back host port addr) (fault "real_dns_server must not point back to %s" name)
    <|> check_points_back host port addrs

abbrev check_server_ip : Main → Str → Option IpAddr → Option Fault
check_server_ip m host none = none
check_server_ip m host (some ip) =
    fail_if (is_loopback ip) (fault "real_dns_server must not point to loopback address %s" host)
    <|> (elim ip [
      | ip4 a ↦
          fail_if (router_lan_ip m.lan_subnets a)
            (fault "real_dns_server must not point to router LAN IP %s" host)
      | ip6 gs ↦ none
    ])

-- `validateRealDNSNoLoop`.
unfoldable pub check_real_dns_no_loop : Main → DnsUpstream → Option Fault
check_real_dns_no_loop m u =
    let host = trim_brackets (trim_space u.host) in
    fail_if (str_eq (to_lower host) (codes "localhost"))
      (fault "real_dns_server must not point to localhost" [])
    <|> check_server_ip m host (parse_ip host)
    <|> check_points_back host u.port (
        (codes "dns_listen", m.dns_listen)
        ∷ (codes "singbox_dns_fakeip", singbox_dns_fakeip_addr m)
        ∷ (codes "singbox_dns_real_direct", singbox_dns_real_direct_addr m)
        ∷ (codes "singbox_dns_real_proxy", singbox_dns_real_proxy_addr m)
        ∷ (codes "dnsmasq loopback default", codes "127.0.0.1:53")
        ∷ [])

-- The checks on the upstream.
unfoldable pub check_upstream : Main → DnsUpstream → Option Fault
check_upstream m u =
    fail_if (not (one_of (codes "udp" ∷ codes "tcp" ∷ codes "tls" ∷ codes "https" ∷ []) u.protocol))
      (fault "unsupported real_dns_transport %q"
        (first_non_empty (m.real_dns_transport ∷ m.dns_upstream_protocol ∷ [])))
    <|> fail_if (not (one_of (codes "cloudflare" ∷ codes "google" ∷ codes "custom" ∷ []) u.preset))
        (fault "unsupported dns_upstream_preset %q" u.preset)
    <|> fail_if (is_blank u.host) (fault "dns upstream host must not be empty" [])
    <|> fail_if (no_port u.port) (fault "invalid dns upstream port %d" [])
    <|> fail_if (str_eq u.protocol (codes "https") && not (has_prefix u.path (codes "/")))
        (fault "real_dns_path must start with /" [])
    <|> check_real_dns_no_loop m u

-- The checks in front of those on the LAN.
unfoldable pub check_modes : Main → Option Fault
check_modes m =
    fail_if (not (one_of (codes "custom" ∷ codes "simple" ∷ codes "global" ∷ []) m.routing_mode))
      (fault "unsupported routing_mode %q" m.routing_mode)
    <|> fail_if (is_empty m.default_outbound) (fault "default_outbound must not be empty" [])
    <|> fail_if (not (str_eq m.default_outbound (codes "direct")))
        (fault "unsupported default_outbound %q: only direct is supported in v1" m.default_outbound)

unfoldable pub check_lan : Main → Option Fault
check_lan m =
    fail_if (elim m.lan_subnets [ [] ↦ true | _ ∷ _ ↦ false ])
      (fault "at least one lan_subnet is required" [])
    <|> check_each check_lan_subnet m.lan_subnets
    <|> check_each check_lan_iface m.lan_ifaces
    <|> fail_if (m.fakeip_enabled && is_none (parse_cidr m.fakeip_range))
        (fault "invalid fakeip_range %q: %w" m.fakeip_range)

unfoldable pub check_ports : Main → Bool → Option Fault
check_ports m has_pools =
    fail_if (no_port m.tproxy_port) (fault "invalid tproxy_port %d" [])
    <|> fail_if (leb_ℤ m.table (pos 0)) (fault "invalid routing table %d" [])
    <|> fail_if (is_blank m.mark) (fault "mark must not be empty" [])
    <|> fail_if (is_blank m.singbox_bin) (fault "singbox_bin must not be empty" [])
    <|> fail_if (is_none (split_host_port m.dns_listen))
        (fault "invalid dns_listen %q: %w" m.dns_listen)
    <|> check_listeners (m.dns_listen ∷ []) (listeners m)
    <|> (if has_pools then check_pool_controller m else none)
    <|> fail_if
        (not (is_empty m.real_dns_upstream) && is_none (split_host_port m.real_dns_upstream))
        (fault "invalid real_dns_upstream %q: %w" m.real_dns_upstream)
    <|> fail_if (not (one_of (codes "direct" ∷ codes "proxy" ∷ []) m.real_dns_mode))
        (fault "unsupported real_dns_mode %q" m.real_dns_mode)

-- `Validate` from its first check to `validateRealDNSNoLoop`.
unfoldable pub check_main : Main → Bool → Option Fault
check_main m has_pools =
    check_modes m <|> check_lan m <|> check_ports m has_pools <|> check_upstream m (dns_upstream m)
