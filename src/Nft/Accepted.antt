-- ===== src/Nft/Accepted.antt =====
-- `Generate` on a configuration that `Parse` returns.
use zakop.Prelude.{
  ℕ, suc, ◌≡◌, ◌⊎◌, inl, inr, refl, Bool, true, false, not, ◌&&◌, ◌||◌, List, [], ◌∷◌, ◌++◌, Option,
  none, some, arith, if◌then◌else◌, Bool-cases, length, ◌==◌, map,
}
use zakop.Prelude.Int.{ℤ}
use zakop.Text.{Str, codes, str_eq, trim_space}
use zakop.Text.Match.{str_eq_iff}
use zakop.Policy.Cidr.{IpNet, normalize_ipv4_cidrs}
use zakop.Config.Types.{Config, Rule}
use zakop.Config.Access.{effective_rules, effective_simple_rule}
use zakop.Config.Lists.{parse_rule_port_range}
use zakop.Config.Clean.{Among}
use zakop.Config.Validate.{parse, parsed}
use zakop.Config.Validate.Main.{is_none}
use zakop.Config.Validate.Rules.{checked_rules}
use zakop.Config.Validate.Fresh.{Each, Each-split}
use zakop.Config.Validate.Loops.{target_tags}
use zakop.Config.Validate.Sound.{IsRouted, IsSound, validate-IsSound}
use zakop.Config.Trimmed.{IsTrimmed, parse-AllTrimmed}
use zakop.RuleEngine.{has_ip_match}
use zakop.ProxyRoute.{targets}
use zakop.ProxyRoute.Named.{IsSound-find}
use zakop.Nft.Packet.{
  parse_nft_port, parse_nft_ports, rule_packet_matches, packet_protocols, matches_of,
}
use zakop.Nft.Ports.{parse_nft_port-SameRange, SameRange}
use zakop.Nft.Sets.{must_ipv4_cidrs, rule_set_name, reserved_cidrs}
use zakop.Nft.Panics.{AllCidrs, must_ipv4_cidrs_cases, reserved_cidrs-some}
use zakop.Nft.Generate.{
  RuleCidrs, written, verdict_lines, write_action, write_rule, write_ordered_ip_rules, mode_rules,
  default_jump, has_proxy_domain_rule, ruleset_text, panicked, generate, ruleset_head, ruleset_tail,
}

parse_nft_ports-accepted :
    (values : List Str)
    → Each (λ p. is_none (parse_rule_port_range p) ≡ false) values
    → (ports : List Str) × (parse_nft_ports values ≡ some ports)
unfolding parse_nft_ports
parse_nft_ports-accepted [] e = ([], refl)
parse_nft_ports-accepted (v ∷ vs) e =
    let (port, first) =
      accepted (parse_nft_port v) (parse_rule_port_range v) (parse_nft_port-SameRange v) e.0 in
    let (ports, rest) = parse_nft_ports-accepted vs e.1 in
    (port ∷ ports, both port ports first rest)
  where
    both :
        (port : Str) (ports : List Str)
        → parse_nft_port v ≡ some port
        → parse_nft_ports vs ≡ some ports
        → parse_nft_ports (v ∷ vs) ≡ some (port ∷ ports)
    both port ports first rest = rw (first, rest, parse_nft_ports) refl

    accepted :
        (text : Option Str) (range : Option (ℤ × ℤ))
        → SameRange text range
        → is_none range ≡ false
        → (port : Str) × (text ≡ some port)
    accepted (some port) range same e = (port, refl)
    accepted none none same e = absurd (ground arith)
    accepted none (some range) same e = absurd same

rule_packet_matches-accepted :
    (set_name : Str) (r : Rule)
    → Each (λ p. is_none (parse_rule_port_range p) ≡ false) (r.src_ports ++ r.dst_ports)
    → (matches : List Str) × (rule_packet_matches set_name r ≡ some matches)
unfolding rule_packet_matches
rule_packet_matches-accepted set_name r e =
    let (before, behind) = Each-split _ r.src_ports r.dst_ports e in
    let (srcs, src_ok) = parse_nft_ports-accepted r.src_ports before in
    let (dsts, dst_ok) = parse_nft_ports-accepted r.dst_ports behind in
    (
      matches_of (codes "ip daddr @" ++ set_name) (packet_protocols r) srcs dsts,
      rw (src_ok, dst_ok, rule_packet_matches) refl,
    )

write_action-written :
    (c : Config) (r : Rule) (matches : List Str)
    → IsSound c
    → Each IsTrimmed c.outbounds
    → (r.action ≡ codes "proxy" → Among (trim_space r.outbound) (target_tags c))
    → (text : Str) × (write_action c.main (targets c) r matches ≡ written text)
unfolding write_action
write_action-written c r matches sound trimmed named =
    elim (Bool-cases (str_eq r.action (codes "proxy"))) [
      | inl proxy ↦
          let (target, found) =
            IsSound-find c r.outbound sound trimmed
              (named ((str_eq_iff r.action (codes "proxy")).0 proxy)) in
          (
            verdict_lines c.main (codes " jump " ++ target.chain) matches,
            rw (proxy, found, write_action) refl,
          )
      | inr other ↦ elim (Bool-cases (str_eq r.action (codes "block"))) [
        | inl block ↦
            (verdict_lines c.main (codes " drop") matches, rw (other, block, write_action) refl)
        | inr kept ↦ elim (Bool-cases (str_eq r.action (codes "direct"))) [
          | inl direct ↦ (
            verdict_lines c.main (codes " return") matches,
            rw (other, kept, direct, write_action) refl,
          )
          | inr unknown ↦ ([], rw (other, kept, unknown, write_action) refl)
        ]
      ]
    ]

write_rule-written :
    (c : Config) (i : ℕ) (r : Rule)
    → IsSound c
    → Each IsTrimmed c.outbounds
    → IsRouted c r
    → (text : Str) × (write_rule c.main (targets c) i r ≡ written text)
unfolding write_rule
write_rule-written c i r sound trimmed routed =
    let (matches, e) = rule_packet_matches-accepted (rule_set_name i) r routed.1 in
    let (text, written_text) = write_action-written c r matches sound trimmed routed.0 in
    (text, rw (e, write_rule) written_text)

write_ordered-written :
    (c : Config) (cidrs : RuleCidrs) (i : ℕ) (rs : List Rule)
    → IsSound c
    → Each IsTrimmed c.outbounds
    → Each (IsRouted c) rs
    → (text : Str) × (write_ordered_ip_rules c.main cidrs (targets c) i rs ≡ written text)
unfolding write_ordered_ip_rules
write_ordered-written c cidrs i [] sound trimmed routed = ([], refl)
write_ordered-written c cidrs i (r ∷ rs) sound trimmed routed =
    let (text, e) = write_rule-written c i r sound trimmed routed.0 in
    let (rest, f) = write_ordered-written c cidrs (suc i) rs sound trimmed routed.1 in
    elim (Bool-cases (not (has_ip_match r) || length (cidrs i) == 0)) [
      | inl skip ↦ (rest, rw (skip, write_ordered_ip_rules) f)
      | inr here ↦ (text ++ rest, rw (here, e, f, write_ordered_ip_rules) refl)
    ]

rules_of_mode :
    (P : Rule → Type 0) (simple : Bool) (rules : List Rule) (r : Rule)
    → Each P (if simple then rules ++ (r ∷ []) else rules)
    → Each P (if not simple then rules else r ∷ [])
rules_of_mode P true rules r e = (Each-split P rules (r ∷ []) e).1
rules_of_mode P false rules r e = e

effective_rules-IsRouted : (c : Config) → IsSound c → Each (IsRouted c) (effective_rules c)
unfolding effective_rules checked_rules
effective_rules-IsRouted c sound =
    rules_of_mode (IsRouted c) (str_eq c.main.routing_mode (codes "simple")) c.rules
      (effective_simple_rule c.main) sound.rules

mode_rules-written :
    (c : Config) (cidrs : RuleCidrs)
    → IsSound c
    → Each IsTrimmed c.outbounds
    → (text : Str) × (mode_rules c cidrs ≡ written text)
unfolding mode_rules
mode_rules-written c cidrs sound trimmed =
    let (text, e) =
      write_ordered-written c cidrs 0 (effective_rules c) sound trimmed
        (effective_rules-IsRouted c sound) in
    elim (Bool-cases (str_eq c.main.routing_mode (codes "global"))) [
      | inl global ↦ (default_jump c.main (targets c) [], rw (global, mode_rules) refl)
      | inr rules ↦ (_, behind rules text e)
    ]
  where
    fakeip : Str
    fakeip =
        if c.main.fakeip_enabled && has_proxy_domain_rule (effective_rules c)
        then default_jump c.main (targets c)
            (codes "ip daddr " ++ (c.main.fakeip_range ++ codes " "))
        else []

    behind :
        str_eq c.main.routing_mode (codes "global") ≡ false
        → (text : Str)
        → write_ordered_ip_rules c.main cidrs (targets c) 0 (effective_rules c) ≡ written text
        → mode_rules c cidrs ≡ written (fakeip ++ text)
    behind rules text e = rw (rules, e, mode_rules) refl

-- What `Generate` does with these networks and rules.
finished :
    (c : Config) (cidrs : RuleCidrs) (lan reserved : List IpNet) (text : Str)
    → must_ipv4_cidrs c.main.lan_subnets ≡ some lan
    → reserved_cidrs c.main ≡ some reserved
    → mode_rules c cidrs ≡ written text
    → (out : Str) × (generate c cidrs ≡ ruleset_text out)
unfolding generate
finished c cidrs lan reserved text e f g = (
  ruleset_head c cidrs (normalize_ipv4_cidrs (map some lan)) reserved ++ (text ++ ruleset_tail c),
  rw (e, f, g, generate) refl,
)

-- From a configuration that `Parse` returns and that is enabled, `Generate` never returns an error:
-- the ports of every rule are read, and every rule that proxies finds its target. It returns a
-- ruleset if every LAN subnet is in the notation of IPv4, and panics otherwise.
pub parse-generate :
    (data' : Str) (c : Config) (cidrs : RuleCidrs)
    → parse data' ≡ parsed c
    → c.main.enabled ≡ true
    → (AllCidrs c.main.lan_subnets × ((out : Str) × (generate c cidrs ≡ ruleset_text out)))
      ⊎ ((¬ AllCidrs c.main.lan_subnets) × (generate c cidrs ≡ panicked))
unfolding generate
parse-generate data' c cidrs e on =
    let (accepted, trimmed) = parse-AllTrimmed data' c e in
    let sound = validate-IsSound c on accepted in
    let (reserved, reserved_ok) = reserved_cidrs-some c.main in
    let (text, rules_ok) = mode_rules-written c cidrs sound trimmed in
    elim (must_ipv4_cidrs_cases c.main.lan_subnets) [
      | inl (all, (lan, lan_ok)) ↦
          inl (all, finished c cidrs lan reserved text lan_ok reserved_ok rules_ok)
      | inr (some_bad, panics) ↦ inr (some_bad, rw (panics, generate) refl)
    ]
