-- ===== src/Config/Validate/Targets.antt =====
-- internal/config/config.go: the checks of `Validate` on outbounds and pools, and on what names one.
use zakop.Prelude.{
  ℕ, Bool, true, false, not, ◌&&◌, ◌||◌, List, [], ◌∷◌, Option, none, some, ltb, if◌then◌else◌,
  length,
}
use zakop.Prelude.Int.{ℤ, pos, ltb_ℤ, leb_ℤ, ◌+ℤ◌}
use zakop.Text.{Str, codes, str_eq, trim_space}
use zakop.Text.Number.{atoi}
use zakop.Dict.{contains_text}
use zakop.Net.Url.{parse_url}
use zakop.Config.Types.{Config, Main, Client, Outbound, OutboundPool}
use zakop.Config.Access.{
  is_blank, enabled_custom_outbounds, proxy_target_tags, reserved_custom_outbound_tag,
}
use zakop.Config.Lists.{is_empty}
use zakop.Config.Fault.{Fault, fault, fail_if, ◌<|>◌, one_of, check_each}
use zakop.Config.Validate.Main.{no_port, host_and_port}
use zakop.Net.Parse.{parse_ip}
use zakop.Net.{IpAddr, ip4, ip6}

-- The fields that `requireOutboundFields` is called with, by their names.
pub data Field : Type 0 where
  server_field : Field
  port_field : Field
  uuid_field : Field
  password_field : Field
  method_field : Field

unfoldable pub check_field : Outbound → Field → Option Fault
check_field o server_field =
    fail_if (is_blank o.server) (fault "outbound %q server is required for type %s" o.tag)
check_field o port_field =
    fail_if (no_port o.port) (fault "outbound %q port is required for type %s" o.tag)
check_field o uuid_field =
    fail_if (is_blank o.uuid) (fault "outbound %q uuid is required for type %s" o.tag)
check_field o password_field =
    fail_if (is_blank o.password) (fault "outbound %q password is required for type %s" o.tag)
check_field o method_field =
    fail_if (is_blank o.method) (fault "outbound %q method is required for type %s" o.tag)

-- `requireOutboundFields`.
unfoldable pub require_outbound_fields : Outbound → List Field → Option Fault
require_outbound_fields o fields = check_each (check_field o) fields

-- The switch on the type of an outbound.
unfoldable pub check_outbound_type : Outbound → Option Fault
check_outbound_type o =
    if str_eq o.type (codes "vless")
    then require_outbound_fields o (server_field ∷ port_field ∷ uuid_field ∷ [])
      <|> fail_if (o.reality && is_blank o.reality_public_key)
          (fault "outbound %q reality_public_key is required when reality=1" o.tag)
    else if str_eq o.type (codes "hysteria2")
    then require_outbound_fields o (server_field ∷ port_field ∷ password_field ∷ [])
    else if str_eq o.type (codes "shadowsocks")
    then require_outbound_fields o (server_field ∷ port_field ∷ method_field ∷ password_field ∷ [])
    else if str_eq o.type (codes "trojan")
    then require_outbound_fields o (server_field ∷ port_field ∷ password_field ∷ [])
    else some (fault "outbound %q has unsupported type %q" o.tag)

-- The body of the loop over the outbounds for an enabled one; `seen` are the keys of
-- `seenOutboundTags`.
unfoldable pub check_outbound : List Str → Outbound → Option Fault
check_outbound seen o =
    fail_if (is_blank o.tag) (fault "outbound tag must not be empty" [])
    <|> fail_if (reserved_custom_outbound_tag (trim_space o.tag))
        (fault "outbound tag %q is reserved" (trim_space o.tag))
    <|> fail_if (contains_text seen (trim_space o.tag))
        (fault "duplicate enabled outbound tag %q" (trim_space o.tag))
    <|> check_outbound_type o

unfoldable pub check_outbounds : List Str → List Outbound → Option Fault
check_outbounds seen [] = none
check_outbounds seen (o ∷ os) =
    if not o.enabled
    then check_outbounds seen os
    else check_outbound seen o <|> check_outbounds (trim_space o.tag ∷ seen) os

-- What the loop adds to `seenOutboundTags`, and to `customOutboundTags`, where it returns no error.
unfoldable pub see_outbounds : List Str → List Outbound → List Str
see_outbounds seen [] = seen
see_outbounds seen (o ∷ os) =
    if not o.enabled then see_outbounds seen os else see_outbounds (trim_space o.tag ∷ seen) os

-- The members of a pool; `members` are the keys of `seenMembers`.
unfoldable pub check_members : List Str → Str → List Str → List Str → Option Fault
check_members custom tag members [] = none
check_members custom tag members (m ∷ ms) =
    fail_if (not (contains_text custom m))
      (fault "outbound pool %q references unknown outbound %q" tag)
    <|> fail_if (contains_text members m)
        (fault "outbound pool %q contains duplicate outbound %q" tag)
    <|> check_members custom tag (m ∷ members) ms

-- `checkURL` is a URL of http or https with a host.
unfoldable pub is_check_url : Str → Bool
is_check_url text = elim (parse_url text) [
  | none ↦ false
  | some (scheme, host) ↦ not (is_empty host) && one_of (codes "http" ∷ codes "https" ∷ []) scheme
]

-- The body of the loop over the pools.
unfoldable pub check_pool : List Str → List Str → OutboundPool → Option Fault
check_pool custom seen p =
    fail_if (is_blank p.tag) (fault "outbound pool tag must not be empty" [])
    <|> fail_if (reserved_custom_outbound_tag (trim_space p.tag))
        (fault "outbound pool tag %q is reserved" (trim_space p.tag))
    <|> fail_if (contains_text seen (trim_space p.tag))
        (fault "duplicate outbound or pool tag %q" (trim_space p.tag))
    <|> fail_if (ltb (length p.outbounds) 2)
        (fault "outbound pool %q requires at least two outbounds" (trim_space p.tag))
    <|> check_members custom (trim_space p.tag) [] p.outbounds
    <|> fail_if (is_empty p.check_url)
        (fault "outbound pool %q check_url must not be empty" (trim_space p.tag))
    <|> fail_if (not (is_check_url p.check_url))
        (fault "outbound pool %q has invalid check_url %q" (trim_space p.tag))
    <|> fail_if (ltb_ℤ p.check_interval (pos 5) || ltb_ℤ (pos 86400) p.check_interval) (
        fault "outbound pool %q check_interval must be between 5 and 86400 seconds"
          (trim_space p.tag))

unfoldable pub check_pools : List Str → List Str → List OutboundPool → Option Fault
check_pools custom seen [] = none
check_pools custom seen (p ∷ ps) =
    check_pool custom seen p <|> check_pools custom (trim_space p.tag ∷ seen) ps

unfoldable pub see_pools : List Str → List OutboundPool → List Str
see_pools seen [] = seen
see_pools seen (p ∷ ps) = see_pools (trim_space p.tag ∷ seen) ps

-- `seenOutboundTags` in front of both loops, and behind them where they return no error.
abbrev pub builtin_tags : List Str
builtin_tags = codes "direct" ∷ codes "blocked" ∷ []

unfoldable pub custom_tags : Config → List Str
custom_tags c = see_outbounds [] c.outbounds

unfoldable pub seen_tags : Config → List Str
seen_tags c = see_pools (see_outbounds builtin_tags c.outbounds) c.outbound_pools

-- The ports that the targets take, and that of the controller.
abbrev port_or_zero : Option ℤ → ℤ
port_or_zero none = pos 0
port_or_zero (some n) = n

-- The `n` ports from `first` on end behind 65535: `first + n - 1 > 65535`.
abbrev pub beyond_ports : ℤ → ℕ → Bool
beyond_ports first n = ltb_ℤ (pos 65536) (first +ℤ pos n)

unfoldable pub check_target_ports : Config → Option Fault
check_target_ports c =
    let n = length (proxy_target_tags c) in
    let (host, text) = host_and_port c.main.pool_controller in
    let controller_port = port_or_zero (atoi text) in
    fail_if (ltb 0 n && beyond_ports c.main.tproxy_port n)
      (fault "tproxy_port %d leaves insufficient ports for %d outbound targets" [])
    <|> fail_if
        (ltb 0 (length c.outbound_pools)
          && str_eq host (codes "127.0.0.1")
          && leb_ℤ c.main.tproxy_port controller_port
          && ltb_ℤ controller_port (c.main.tproxy_port +ℤ pos n))
        (fault "pool_controller must not use a generated TProxy port" [])
    <|> fail_if
        (str_eq c.main.routing_mode (codes "global")
          && not (ltb 0 (length (enabled_custom_outbounds c))))
        (fault "routing_mode global requires a custom outbound" [])

-- The two loops over the clients.
abbrev is_ipv4 : Option IpAddr → Bool
is_ipv4 none = false
is_ipv4 (some (ip4 a)) = true
is_ipv4 (some (ip6 gs)) = false

unfoldable pub check_client : Client → Option Fault
check_client cl =
    fail_if (not (is_ipv4 (parse_ip cl.ip))) (fault "client %d has invalid IPv4 address %q" cl.ip)
    <|> fail_if (not (one_of (codes "default" ∷ codes "proxy" ∷ codes "direct" ∷ []) cl.policy))
        (fault "client %q has unsupported policy %q" cl.name)

unfoldable pub check_client_outbound : List Str → Client → Option Fault
check_client_outbound seen cl =
    let tag = trim_space cl.outbound in
    if not (str_eq cl.policy (codes "proxy"))
    then none
    else (fail_if (is_empty tag) (fault "client %q policy proxy requires a custom outbound" cl.name)
        <|> fail_if (str_eq tag (codes "proxy_default")) (
            fault "client %q outbound 'proxy_default' is deprecated; choose a custom outbound"
              cl.name)
        <|> fail_if (reserved_custom_outbound_tag tag)
            (fault "client %q outbound %q must be a custom outbound" cl.name)
        <|> fail_if (not (contains_text seen tag))
            (fault "client %q has unsupported outbound %q" cl.name))

-- The outbound of the real DNS, and that of updates.
unfoldable pub check_real_dns_outbound : List Str → Main → Option Fault
check_real_dns_outbound seen m =
    let tag = trim_space m.real_dns_outbound in
    if not (str_eq m.real_dns_mode (codes "proxy"))
    then none
    else (fail_if (is_empty tag) (fault "real_dns_mode=proxy requires real_dns_outbound" [])
        <|> fail_if (str_eq tag (codes "proxy_default"))
            (fault "real_dns_outbound 'proxy_default' is deprecated; choose a custom outbound" [])
        <|> fail_if (reserved_custom_outbound_tag tag)
            (fault "real_dns_outbound %q must be a custom outbound" tag)
        <|> fail_if (not (contains_text seen tag)) (fault "real_dns_outbound %q not found" tag))

-- The checks that the main section, providers and subscriptions share: `update_via` is known.
unfoldable pub unknown_via : Str → Bool
unknown_via via = not (one_of (codes "direct" ∷ codes "proxy" ∷ []) via)

unfoldable pub check_update_outbound : List Str → Main → Option Fault
check_update_outbound seen m =
    let via_proxy = str_eq m.update_via (codes "proxy") in
    fail_if (unknown_via m.update_via) (fault "main has unsupported update_via %q" m.update_via)
    <|> fail_if (via_proxy && is_blank m.update_outbound)
        (fault "main update_via proxy requires update_outbound" [])
    <|> fail_if (via_proxy && reserved_custom_outbound_tag m.update_outbound)
        (fault "main update_outbound %q must be a custom outbound" m.update_outbound)
    <|> fail_if (via_proxy && not (contains_text seen m.update_outbound))
        (fault "main has unsupported update_outbound %q" m.update_outbound)

-- `Validate` from the loop over the clients to the checks on `update_outbound`.
unfoldable pub check_targets : Config → Option Fault
check_targets c =
    check_each check_client c.clients
    <|> check_outbounds builtin_tags c.outbounds
    <|> check_pools (custom_tags c) (see_outbounds builtin_tags c.outbounds) c.outbound_pools
    <|> check_target_ports c
    <|> check_each (check_client_outbound (seen_tags c)) c.clients
    <|> check_real_dns_outbound (seen_tags c) c.main
    <|> check_update_outbound (seen_tags c) c.main
