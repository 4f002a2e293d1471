-- ===== src/Nft/Generate.antt =====
-- internal/nft/generator.go: `Generate`.
use zakop.Prelude.{
  ℕ, suc, Bool, false, not, ◌&&◌, ◌||◌, List, [], ◌∷◌, ◌++◌, Option, none, some, ◌==◌,
  if◌then◌else◌, length, map,
}
use zakop.Text.{Str, codes, str_eq}
use zakop.Policy.Cidr.{IpNet, normalize_ipv4_cidrs}
use zakop.Config.Types.{Config, Main, Rule}
use zakop.Config.Access.{effective_rules}
use zakop.Config.Lists.{is_empty}
use zakop.RuleEngine.{has_ip_match, has_domain_includes}
use zakop.ProxyRoute.{Target, targets, find}
use zakop.Nft.Packet.{rule_packet_matches, int_text}
use zakop.Nft.Sets.{
  write_set, cidr_strings, must_ipv4_cidrs, reserved_cidrs, collect_clients, rule_set_name,
  lan_source_matcher, lan_guard_rule, counter,
}

-- `map[int][]*net.IPNet`: a missing key has no networks.
abbrev pub RuleCidrs : Type 0
RuleCidrs = ℕ → List (Option IpNet)

-- The errors of `writeOrderedIPRules`, with the names in them.
pub data NftError : Type 0 where
  packet_match : Str → NftError
  no_target : Str → Str → NftError

-- A text, or an error.
pub data Written : Type 0 where
  written : Str → Written
  failed : NftError → Written

-- What is written behind a text.
abbrev pub then_write : Str → Written → Written
then_write text (written more) = written (text ++ more)
then_write text (failed error) = failed error

-- `writeRuleSets` from the rule `i` on.
unfoldable pub write_rule_sets : RuleCidrs → ℕ → List Rule → Str
write_rule_sets cidrs i [] = []
write_rule_sets cidrs i (r ∷ rs) =
    let rest = write_rule_sets cidrs (suc i) rs in
    if not (has_ip_match r) || length (cidrs i) == 0
    then rest
    else write_set (rule_set_name i) (cidr_strings (normalize_ipv4_cidrs (cidrs i))) ++ rest

-- One line for each match, with the same verdict.
unfoldable pub verdict_lines : Main → Str → List Str → Str
verdict_lines m verdict [] = []
verdict_lines m verdict (t ∷ ts) =
    codes "\t\t" ++ (t ++ (counter m ++ (verdict ++ (codes "\n" ++ verdict_lines m verdict ts))))

-- The switch on the action of a rule.
unfoldable pub write_action : Main → List Target → Rule → List Str → Written
write_action m ts r matches =
    if str_eq r.action (codes "proxy")
    then elim (find ts r.outbound) [
      | none ↦ failed (no_target r.name r.outbound)
      | some target ↦ written (verdict_lines m (codes " jump " ++ target.chain) matches)
    ]
    else if str_eq r.action (codes "block")
    then written (verdict_lines m (codes " drop") matches)
    else if str_eq r.action (codes "direct")
    then written (verdict_lines m (codes " return") matches)
    else written []

unfoldable pub write_rule : Main → List Target → ℕ → Rule → Written
write_rule m ts i r = elim (rule_packet_matches (rule_set_name i) r) [
  | none ↦ failed (packet_match r.name)
  | some matches ↦ write_action m ts r matches
]

-- `writeOrderedIPRules` from the rule `i` on.
abbrev pub write_both : Written → Written → Written
write_both (written text) rest = then_write text rest
write_both (failed error) rest = failed error

unfoldable pub write_ordered_ip_rules : Main → RuleCidrs → List Target → ℕ → List Rule → Written
write_ordered_ip_rules m cidrs ts i [] = written []
write_ordered_ip_rules m cidrs ts i (r ∷ rs) =
    let rest = write_ordered_ip_rules m cidrs ts (suc i) rs in
    if not (has_ip_match r) || length (cidrs i) == 0
    then rest
    else write_both (write_rule m ts i r) rest

-- `hasProxyDomainRule`.
unfoldable pub has_proxy_domain_rule : List Rule → Bool
has_proxy_domain_rule [] = false
has_proxy_domain_rule (r ∷ rs) =
    (r.enabled && str_eq r.action (codes "proxy") && has_domain_includes r)
    || has_proxy_domain_rule rs

-- The parts of `generate`, in the order in which they are written: the redirection of DNS, the
-- returns at the head of `from_lan`, its jumps and rules, and the chains of the targets.
unfoldable pub dns_chain : Main → Str
dns_chain m =
    if m.manage_dnsmasq
    then codes
        "\tchain dns_prerouting {\n\t\ttype nat hook prerouting priority dstnat; policy accept;\n\t\t"
      ++ (lan_source_matcher m
          ++ (codes " udp dport 53"
              ++ (counter m
                  ++ (codes " redirect to :53\n\t\t"
                      ++ (lan_source_matcher m
                          ++ (codes " tcp dport 53"
                              ++ (counter m ++ codes " redirect to :53\n\t}\n")))))))
    else []

abbrev return_line : Main → Str → Str
return_line m text = codes "\t\t" ++ (text ++ (counter m ++ codes " return\n"))

unfoldable pub early_returns : Main → Str
early_returns m =
    (if m.manage_dnsmasq
      then return_line m (codes "udp dport 53") ++ return_line m (codes "tcp dport 53")
      else [])
    ++ (return_line m (codes "ct status dnat")
        ++ (return_line m (codes "ip saddr @direct_clients4")
            ++ return_line m (codes "ip daddr @reserved4")))

abbrev jump_line : Main → Str → Str → Str
jump_line m text chain =
    codes "\t\t"
    ++ (text
        ++ (codes "meta l4proto { tcp, udp }"
            ++ (counter m ++ (codes " jump " ++ (chain ++ codes "\n")))))

-- A jump to the chain of the default target, which is the first one, if its tag is not empty.
unfoldable pub default_jump : Main → List Target → Str → Str
default_jump m [] text = []
default_jump m (t ∷ ts) text = if is_empty t.tag then [] else jump_line m text t.chain

unfoldable pub mode_rules : Config → RuleCidrs → Written
mode_rules c cidrs =
    let ts = targets c in
    let rules = effective_rules c in
    if str_eq c.main.routing_mode (codes "global")
    then written (default_jump c.main ts [])
    else then_write
        (if c.main.fakeip_enabled && has_proxy_domain_rule rules
          then default_jump c.main ts (codes "ip daddr " ++ (c.main.fakeip_range ++ codes " "))
          else [])
        (write_ordered_ip_rules c.main cidrs ts 0 rules)

unfoldable pub target_chains : Main → List Target → Str
target_chains m [] = []
target_chains m (t ∷ ts) =
    codes "\tchain "
    ++ (t.chain
        ++ (codes " {\n\t\tmeta l4proto { tcp, udp }"
            ++ (counter m
                ++ (codes " meta mark set "
                    ++ (m.mark
                        ++ (codes " tproxy ip to 127.0.0.1:"
                            ++ (int_text t.port
                                ++ (codes " accept\n\t\treturn\n\t}\n" ++ target_chains m ts))))))))

-- The sets of `generate`.
unfoldable pub all_sets : Config → RuleCidrs → List IpNet → List IpNet → Str
all_sets c cidrs lan reserved =
    write_set (codes "lan_subnets4") (cidr_strings lan)
    ++ (write_set (codes "reserved4") (cidr_strings reserved)
        ++ (write_set (codes "direct_clients4") (collect_clients c.clients (codes "direct"))
            ++ (write_set (codes "proxy_clients4") (collect_clients c.clients (codes "proxy"))
                ++ write_rule_sets cidrs 0 (effective_rules c))))

-- The text in front of what depends on the routing mode, and the text behind it.
unfoldable pub ruleset_head : Config → RuleCidrs → List IpNet → List IpNet → Str
ruleset_head c cidrs lan reserved =
    codes "table inet zakop {\n"
    ++ (all_sets c cidrs lan reserved
        ++ (dns_chain c.main
            ++ (codes
                  "\tchain prerouting {\n\t\ttype filter hook prerouting priority mangle; policy accept;\n"
                ++ (lan_guard_rule c.main
                    ++ (codes "\t\treturn\n\t}\n\tchain from_lan {\n"
                        ++ (early_returns c.main
                            ++ default_jump c.main (targets c)
                                (codes "ip saddr @proxy_clients4 ")))))))

unfoldable pub ruleset_tail : Config → Str
ruleset_tail c = codes "\t\treturn\n\t}\n" ++ (target_chains c.main (targets c) ++ codes "}\n")

-- The results of `Generate`: a text, an error, or a panic of `MustIPv4CIDRs`.
pub data Generated : Type 0 where
  ruleset_text : Str → Generated
  error : NftError → Generated
  panicked : Generated

abbrev pub finish : Str → Str → Written → Generated
finish head tail (written text) = ruleset_text (head ++ (text ++ tail))
finish head tail (failed e) = error e

-- `Generate`; `NormalizeIPv4CIDRs` is applied twice to the LAN subnets, as in the code.
unfoldable pub generate : Config → RuleCidrs → Generated
generate c cidrs = elim (must_ipv4_cidrs c.main.lan_subnets) [
  | none ↦ panicked
  | some subnets ↦ elim (reserved_cidrs c.main) [
    | none ↦ panicked
    | some reserved ↦
        finish (ruleset_head c cidrs (normalize_ipv4_cidrs (map some subnets)) reserved)
          (ruleset_tail c) (mode_rules c cidrs)
  ]
]
