-- ===== src/Config/Validate/Rules.antt =====
-- internal/config/config.go: the checks of `Validate` on providers, subscriptions and rules.
use zakop.Prelude.{
  ℕ, ◌+◌, Bool, false, not, ◌&&◌, ◌||◌, List, [], ◌∷◌, ◌++◌, Option, none, some, ltb, if◌then◌else◌,
  length, ◌==◌,
}
use zakop.Prelude.Int.{ℤ, pos, negsuc, ltb_ℤ}
use zakop.Text.{Str, codes, str_eq, to_lower, trim_space, has_prefix}
use zakop.Dict.{contains_text, lookup}
use zakop.Policy.Parse.{parse_ipv4_cidr}
use zakop.Config.Types.{Config, Provider, Subscription, Rule}
use zakop.Config.Access.{is_blank, effective_simple_rule, reserved_custom_outbound_tag}
use zakop.Config.Lists.{is_empty, append_list, parse_rule_port_range}
use zakop.Config.Fault.{Fault, fault, fail_if, ◌<|>◌, one_of, check_each}
use zakop.Config.Validate.Main.{is_none}
use zakop.Config.Validate.Targets.{unknown_via}

-- `validUpdateIntervalMinutes`.
unfoldable pub valid_update_interval_minutes : ℤ → Bool
valid_update_interval_minutes (pos n) =
    n == 15 || n == 30 || n == 60 || n == 120 || n == 180 || n == 360 || n == 720 || n == 1440
valid_update_interval_minutes (negsuc n) = false

-- A number that is not in the range from 0 to `top`.
abbrev outside : ℤ → ℕ → Bool
outside n top = ltb_ℤ n (pos 0) || ltb_ℤ (pos top) n

-- The switch on the source of a provider, and the check behind it.
unfoldable pub check_source : Provider → Str → Option Fault
check_source p name =
    (if one_of ([] ∷ codes "url" ∷ []) p.source
      then none
      else if str_eq p.source (codes "script")
      then fail_if (is_blank p.script_path) (fault "provider %q script_path is required" name)
        <|> fail_if (not (has_prefix (trim_space p.script_path) (codes "/")))
            (fault "provider %q script_path must be absolute" name)
      else some (fault "provider %q has unsupported source %q" name))
    <|> fail_if
        (not (str_eq p.source (codes "script"))
          && is_blank p.url
          && not (ltb 0 (length p.files))
          && is_blank p.local_path)
        (fault "provider %q url is required" name)

-- The schedule of a provider that is updated by itself.
unfoldable pub check_provider_schedule : Provider → Str → Option Fault
check_provider_schedule p name =
    if not p.auto_update
    then none
    else if str_eq p.update_schedule (codes "time")
    then fail_if (outside p.update_hour 23) (fault "provider %q has invalid update_hour %d" name)
      <|> fail_if (outside p.update_minute 59)
          (fault "provider %q has invalid update_minute %d" name)
    else if str_eq p.update_schedule (codes "interval")
    then fail_if (not (valid_update_interval_minutes p.update_interval_minutes))
        (fault "provider %q has invalid update_interval_minutes %d" name)
    else some (fault "provider %q has unsupported update_schedule %q" name)

-- The body of the loop over the providers; `names` are the keys of `seenProviders`.
unfoldable pub check_provider : List Str → List Str → Provider → Option Fault
check_provider seen names p =
    let name = trim_space p.name in
    let via_proxy = str_eq p.update_via (codes "proxy") in
    fail_if (is_empty name) (fault "provider name must not be empty" [])
    <|> fail_if (contains_text names name) (fault "duplicate provider %q" name)
    <|> fail_if (not (one_of (codes "domain" ∷ codes "ip" ∷ []) p.type))
        (fault "provider %q has unsupported type %q" name)
    <|> check_source p name
    <|> fail_if (unknown_via p.update_via) (fault "provider %q has unsupported update_via %q" name)
    <|> check_provider_schedule p name
    <|> fail_if (via_proxy && is_blank p.update_outbound)
        (fault "provider %q update_via proxy requires update_outbound" name)
    <|> fail_if (via_proxy && reserved_custom_outbound_tag p.update_outbound)
        (fault "provider %q update_outbound must be a custom outbound" name)
    <|> fail_if (via_proxy && not (contains_text seen p.update_outbound))
        (fault "provider %q has unsupported update_outbound %q" name)

unfoldable pub check_providers : List Str → List Str → List Provider → Option Fault
check_providers seen names [] = none
check_providers seen names (p ∷ ps) =
    check_provider seen names p <|> check_providers seen (trim_space p.name ∷ names) ps

-- `seenProviders` behind the loop, where it returns no error.
unfoldable pub seen_providers : List Provider → List (Str × Provider)
seen_providers [] = []
seen_providers (p ∷ ps) = (trim_space p.name, p) ∷ seen_providers ps

unfoldable pub check_subscription_schedule : Subscription → Str → Option Fault
check_subscription_schedule s name =
    if not s.auto_update
    then none
    else if str_eq s.update_schedule (codes "time")
    then fail_if (outside s.update_hour 23)
        (fault "subscription %q has invalid update_hour %d" name)
      <|> fail_if (outside s.update_minute 59)
          (fault "subscription %q has invalid update_minute %d" name)
    else if str_eq s.update_schedule (codes "interval")
    then fail_if (not (valid_update_interval_minutes s.update_interval_minutes))
        (fault "subscription %q has invalid update_interval_minutes %d" name)
    else some (fault "subscription %q has unsupported update_schedule %q" name)

-- The checks on an enabled subscription.
unfoldable pub check_enabled_subscription : List Str → Subscription → Str → Option Fault
check_enabled_subscription seen s name =
    let via_proxy = str_eq s.update_via (codes "proxy") in
    fail_if (is_blank s.url) (fault "subscription %q url is required" name)
    <|> fail_if (unknown_via s.update_via)
        (fault "subscription %q has unsupported update_via %q" name)
    <|> check_subscription_schedule s name
    <|> fail_if (via_proxy && is_blank s.update_outbound)
        (fault "subscription %q update_via proxy requires update_outbound" name)
    <|> fail_if (via_proxy && reserved_custom_outbound_tag s.update_outbound)
        (fault "subscription %q update_outbound must be a custom outbound" name)
    <|> fail_if (via_proxy && not (contains_text seen s.update_outbound))
        (fault "subscription %q has unsupported update_outbound %q" name)

unfoldable pub check_subscriptions : List Str → List Str → List Subscription → Option Fault
check_subscriptions seen names [] = none
check_subscriptions seen names (s ∷ ss) =
    let name = trim_space s.name in
    fail_if (is_empty name) (fault "subscription name must not be empty" [])
    <|> fail_if (contains_text names name) (fault "duplicate subscription %q" name)
    <|> (if not s.enabled then none else check_enabled_subscription seen s name)
    <|> check_subscriptions seen (name ∷ names) ss

-- One of the named providers has this type.
abbrev some_provider : List (Str × Provider) → Str → List Str → Bool
some_provider providers type [] = false
some_provider providers type (name ∷ names) =
    (elim (lookup (trim_space name) providers) [ none ↦ false | some p ↦ str_eq p.type type ])
    || some_provider providers type names

-- `ruleHasDomainSelectors`, `ruleHasIPSelectors` and `ruleHasPortSelectors`.
unfoldable pub rule_has_domain_selectors : Rule → List (Str × Provider) → Bool
rule_has_domain_selectors r providers =
    ltb 0 (
      length r.domain_equals
      + length r.domain_contains
      + length r.domain_starts_with
      + length r.domain_ends_with
      + length r.domain_files
      + length r.domain_providers)
    || some_provider providers (codes "domain") r.providers

unfoldable pub rule_has_ip_selectors : Rule → List (Str × Provider) → Bool
rule_has_ip_selectors r providers =
    ltb 0 (length r.ip_cidrs + length r.files + length r.ip_providers)
    || some_provider providers (codes "ip") r.providers

unfoldable pub rule_has_port_selectors : Rule → Bool
rule_has_port_selectors r = ltb 0 (length r.src_ports + length r.dst_ports)

unfoldable pub check_proto : Rule → Str → Option Fault
check_proto r proto =
    fail_if (not (one_of (codes "tcp" ∷ codes "udp" ∷ []) (to_lower (trim_space proto))))
      (fault "rule %q has unsupported proto %q" r.name)

unfoldable pub check_rule_port : Rule → Str → Option Fault
check_rule_port r port =
    fail_if (is_none (parse_rule_port_range port))
      (fault "rule %q contains invalid port match %q: %w" r.name)

-- The checks on what a rule selects, where `domain` and `ip` tell which selectors it has.
unfoldable pub check_selectors : Rule → Bool → Bool → Option Fault
check_selectors r domain ip =
    check_each (check_proto r) r.proto
    <|> check_each (check_rule_port r) (append_list r.src_ports r.dst_ports)
    <|> fail_if (rule_has_port_selectors r && not ip) (
        fault "rule %q: Port matching is packet-level and requires provider/CIDR/IP matchers in v1"
          r.name)
    <|> fail_if (ltb 0 (length r.proto) && not ip) (
        fault
          "rule %q: Protocol matching is packet-level and requires provider/CIDR/IP matchers in v1"
          r.name)
    <|> fail_if (ip && not domain && str_eq r.dns_mode (codes "fakeip")) (
        fault "rule %q: provider/CIDR rules require real DNS because FakeIP hides destination IP"
          r.name)
    <|> fail_if (str_eq r.action (codes "direct") && str_eq r.dns_mode (codes "fakeip"))
        (fault "rule %q: direct rules require real DNS" r.name)

unfoldable pub check_rule_file : Rule → Str → Option Fault
check_rule_file r file =
    fail_if (is_blank file) (fault "rule %q contains an empty provider file path" r.name)

unfoldable pub check_domain_file : Rule → Str → Option Fault
check_domain_file r file =
    fail_if (is_blank file) (fault "rule %q contains an empty domain file path" r.name)

unfoldable pub check_rule_cidr : Rule → Str → Option Fault
check_rule_cidr r cidr =
    fail_if (is_none (parse_ipv4_cidr cidr))
      (fault "rule %q contains invalid IPv4 CIDR %q: %w" r.name)

unfoldable pub check_rule_provider : List (Str × Provider) → Rule → Str → Option Fault
check_rule_provider providers r name =
    fail_if (is_none (lookup (trim_space name) providers))
      (fault "rule %q references unknown provider %q" r.name)

-- The checks on the outbound of a rule.
unfoldable pub check_rule_outbound : List Str → Rule → Option Fault
check_rule_outbound seen r =
    let tag = trim_space r.outbound in
    fail_if (str_eq r.action (codes "proxy") && (is_empty tag || reserved_custom_outbound_tag tag))
      (fault "rule %q action proxy requires a custom outbound" r.name)
    <|> fail_if (not (contains_text seen (if is_empty tag then codes "direct" else tag)))
        (fault "rule %q has unsupported outbound %q" r.name)

-- The body of the loop over the rules.
unfoldable pub check_rule : List Str → List (Str × Provider) → Rule → Option Fault
check_rule seen providers r =
    fail_if (is_blank r.name) (fault "rule name must not be empty" [])
    <|> fail_if (not (one_of (codes "proxy" ∷ codes "direct" ∷ codes "block" ∷ []) r.action))
        (fault "rule %q has unsupported action %q" r.name)
    <|> fail_if (not (one_of (codes "fakeip" ∷ codes "real_ip" ∷ codes "auto" ∷ []) r.dns_mode))
        (fault "rule %q has unsupported dns_mode %q" r.name)
    <|> check_selectors r (rule_has_domain_selectors r providers)
        (rule_has_ip_selectors r providers)
    <|> check_each (check_rule_file r) r.files
    <|> check_each (check_domain_file r) r.domain_files
    <|> check_each (check_rule_cidr r) r.ip_cidrs
    <|> check_each (check_rule_provider providers r)
        (append_list (append_list r.domain_providers r.ip_providers) r.providers)
    <|> check_rule_outbound seen r

-- The rules that the last loop ranges over.
unfoldable pub checked_rules : Config → List Rule
checked_rules c =
    if str_eq c.main.routing_mode (codes "simple")
    then c.rules ++ (effective_simple_rule c.main ∷ [])
    else c.rules

-- `Validate` from the loop over the providers on.
unfoldable pub check_lists : List Str → Config → Option Fault
check_lists seen c =
    check_providers seen [] c.providers
    <|> check_subscriptions seen [] c.subscriptions
    <|> check_each (check_rule seen (seen_providers c.providers)) (checked_rules c)
