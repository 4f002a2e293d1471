-- ===== src/Config/Validate/Sound.antt =====
-- What `Validate` makes sure of: the targets, their ports, and what names them.
use zakop.Prelude.{
  ℕ, ◌≡◌, inl, inr, refl, sym, ap, ◌∙◌, subst, Bool, true, false, not, ◌&&◌, List, [], ◌∷◌, ◌++◌,
  none, arith, length, ltb,
}
use zakop.Prelude.Int.{ℤ, pos, ◌≤ℤ◌, ◌+ℤ◌}
use zakop.Text.{Str, codes, str_eq, trim_space}
use zakop.Text.Match.{str_eq_iff}
use zakop.Dict.{contains_text}
use zakop.Config.Types.{Config, Main, Rule, Client}
use zakop.Config.Access.{proxy_target_tags, reserved_custom_outbound_tag}
use zakop.Config.Lists.{is_empty, append_list, parse_rule_port_range}
use zakop.Config.Clean.{Among, Distinct}
use zakop.Config.Fault.{<|>_none, fail_if-false, passed, not_skipped, check_each}
use zakop.Config.Validate.{validate}
use zakop.Config.Validate.Main.{check_main, check_lan, check_modes, check_ports, no_port, is_none}
use zakop.Config.Validate.Targets.{
  check_outbounds, see_outbounds, check_pools, custom_tags, seen_tags, builtin_tags, beyond_ports,
  check_target_ports, check_client_outbound, check_targets,
}
use zakop.Config.Validate.Rules.{
  check_lists, check_providers, check_subscriptions, check_rule, check_rule_port,
  check_rule_outbound, check_selectors, checked_rules, seen_providers,
}
use zakop.Config.Validate.Fresh.{
  Each, Each-map, check_each-Each, Fresh, Fresh-append, onto, onto-append, onto-Among,
  Fresh-Distinct,
}
use zakop.Config.Validate.Loops.{
  target_tags, enabled_tags, trimmed_pool_tags, IsFree, IsPool, check_outbounds-Fresh,
  check_pools-Fresh, see_outbounds-onto, see_pools-onto, present,
}

-- The rule, if it sends to a proxy, names a target; and its ports are read.
abbrev pub IsRouted : Config → Rule → Type 0
IsRouted c r =
    (r.action ≡ codes "proxy" → Among (trim_space r.outbound) (target_tags c))
    × Each (λ p. is_none (parse_rule_port_range p) ≡ false) (r.src_ports ++ r.dst_ports)

pub record IsSound (c : Config) : Type 0 where
  pub targets_distinct : Distinct (target_tags c)
  pub targets_free : Each IsFree (target_tags c)
  pub pools : Each (IsPool (enabled_tags c.outbounds)) c.outbound_pools
  pub first_port : pos 1 ≤ℤ c.main.tproxy_port
  pub last_port : c.main.tproxy_port +ℤ pos (length (proxy_target_tags c)) ≤ℤ pos 65536
  pub rules : Each (IsRouted c) (checked_rules c)
  pub clients :
      Each
        (λ cl. cl.policy ≡ codes "proxy" → Among (trim_space cl.outbound) (target_tags c))
        c.clients

Each-append :
    {A : Type 0} (P : A → Type 0) (xs ys : List A) → Each P xs → Each P ys → Each P (xs ++ ys)
Each-append P [] ys e f = f
Each-append P (x ∷ xs) ys e f = (e.0, Each-append P xs ys e.1 f)

-- A tag that `Validate` has seen is a target or reserved.
seen_tags-onto : (c : Config) → seen_tags c ≡ onto builtin_tags (target_tags c)
unfolding seen_tags
seen_tags-onto c =
    see_pools-onto (see_outbounds builtin_tags c.outbounds) c.outbound_pools
    ∙ (ap (λ seen. onto seen (trimmed_pool_tags c.outbound_pools))
          (see_outbounds-onto builtin_tags c.outbounds)
        ∙ onto-append builtin_tags (enabled_tags c.outbounds) (trimmed_pool_tags c.outbound_pools))

builtin-reserved : (tag : Str) → Among tag builtin_tags → reserved_custom_outbound_tag tag ≡ true
unfolding reserved_custom_outbound_tag str_eq
builtin-reserved tag (inl direct) = rw (sym direct) refl
builtin-reserved tag (inr (inl blocked)) = rw (sym blocked) refl
builtin-reserved tag (inr (inr nowhere)) = absurd nowhere

seen-target :
    (c : Config) (tag : Str)
    → not (contains_text (seen_tags c) tag) ≡ false
    → reserved_custom_outbound_tag tag ≡ false
    → Among tag (target_tags c)
seen-target c tag seen free =
    elim (onto-Among builtin_tags (target_tags c) tag
      (subst (λ tags. Among tag tags) (seen_tags-onto c) (present (seen_tags c) tag seen))) [
        | inl target ↦ target
        | inr builtin ↦ absurd (ground (arith, free, builtin-reserved tag builtin))
      ]

proxy_rule_outbound :
    (c : Config) (r : Rule)
    → check_rule_outbound (seen_tags c) r ≡ none
    → r.action ≡ codes "proxy"
    → Among (trim_space r.outbound) (target_tags c)
unfolding check_rule_outbound
proxy_rule_outbound c r e proxy =
    let tag = trim_space r.outbound in
    let (named, e1) = passed _ e in
    let is_proxy : str_eq r.action (codes "proxy") ≡ true =
      (str_eq_iff r.action (codes "proxy")).1 proxy in
    let free : is_empty tag ≡ false × reserved_custom_outbound_tag tag ≡ false =
      ground (arith, named, is_proxy) in
    let seen : not (contains_text (seen_tags c) tag) ≡ false =
      sym (rw (free.0) refl) ∙ fail_if-false _ _ e1 in
    seen-target c tag seen free.1

proxy_client_outbound :
    (c : Config) (cl : Client)
    → check_client_outbound (seen_tags c) cl ≡ none
    → cl.policy ≡ codes "proxy"
    → Among (trim_space cl.outbound) (target_tags c)
unfolding check_client_outbound
proxy_client_outbound c cl e proxy =
    let is_proxy : str_eq cl.policy (codes "proxy") ≡ true =
      (str_eq_iff cl.policy (codes "proxy")).1 proxy in
    let (_, e1) = passed _ (not_skipped _ _ is_proxy e) in
    let (_, e2) = passed _ e1 in
    let (free, e3) = passed _ e2 in
    seen-target c (trim_space cl.outbound) (fail_if-false _ _ e3) free

check_rule-IsRouted :
    (c : Config) (r : Rule)
    → check_rule (seen_tags c) (seen_providers c.providers) r ≡ none
    → IsRouted c r
unfolding check_rule check_selectors check_rule_port
check_rule-IsRouted c r e =
    let (_, e1) = passed _ e in
    let (_, e2) = passed _ e1 in
    let (_, e3) = passed _ e2 in
    let (e4, e5) = <|>_none (check_selectors r _ _) _ e3 in
    let (_, e6) = <|>_none (check_each _ r.files) _ e5 in
    let (_, e7) = <|>_none (check_each _ r.domain_files) _ e6 in
    let (_, e8) = <|>_none (check_each _ r.ip_cidrs) _ e7 in
    let (_, e9) =
      <|>_none
        (check_each _ (append_list (append_list r.domain_providers r.ip_providers) r.providers)) _
        e8 in
    let (_, e10) = <|>_none (check_each _ r.proto) _ e4 in
    let (e11, _) = <|>_none (check_each _ (append_list r.src_ports r.dst_ports)) _ e10 in
    (
      proxy_rule_outbound c r e9,
      Each-map _ _ (r.src_ports ++ r.dst_ports) (λ p checked. fail_if-false _ _ checked)
          (check_each-Each (check_rule_port r) (r.src_ports ++ r.dst_ports) e11),
    )

-- What the checks that the fields of `IsSound` rest on return.
record Passed (c : Config) : Type 0 where
  tproxy : no_port c.main.tproxy_port ≡ false
  outbounds_ok : check_outbounds builtin_tags c.outbounds ≡ none
  pools_ok :
      check_pools (custom_tags c) (see_outbounds builtin_tags c.outbounds) c.outbound_pools ≡ none
  enough :
      (ltb 0 (length (proxy_target_tags c))
        && beyond_ports c.main.tproxy_port (length (proxy_target_tags c)))
      ≡ false
  clients_ok : check_each (check_client_outbound (seen_tags c)) c.clients ≡ none
  rules_ok :
      check_each (check_rule (seen_tags c) (seen_providers c.providers)) (checked_rules c) ≡ none

check_main-tproxy :
    (m : Main) (has_pools : Bool) → check_main m has_pools ≡ none → no_port m.tproxy_port ≡ false
unfolding check_main check_ports
check_main-tproxy m has_pools e =
    let (_, e1) = <|>_none (check_modes m) _ e in
    let (_, e2) = <|>_none (check_lan m) _ e1 in
    let (on_ports, _) = <|>_none (check_ports m has_pools) _ e2 in (passed _ on_ports).0

validate-Passed : (c : Config) → c.main.enabled ≡ true → validate c ≡ none → Passed c
unfolding validate check_targets check_lists check_target_ports
validate-Passed c on e =
    let (on_main, e1) = <|>_none (check_main c.main _) _ (not_skipped c.main.enabled _ on e) in
    let (on_targets, on_lists) = <|>_none (check_targets c) _ e1 in
    let (_, t1) = <|>_none (check_each _ c.clients) _ on_targets in
    let (outbounds_ok, t2) = <|>_none (check_outbounds builtin_tags c.outbounds) _ t1 in
    let (pools_ok, t3) = <|>_none (check_pools _ _ c.outbound_pools) _ t2 in
    let (ports_ok, t4) = <|>_none (check_target_ports c) _ t3 in
    let (clients_ok, _) = <|>_none (check_each _ c.clients) _ t4 in
    let (_, l1) = <|>_none (check_providers _ _ c.providers) _ on_lists in
    let (_, rules_ok) = <|>_none (check_subscriptions _ _ c.subscriptions) _ l1 in
    record {
      tproxy = check_main-tproxy c.main _ on_main;
      outbounds_ok = outbounds_ok;
      pools_ok = pools_ok;
      enough = (passed _ ports_ok).0;
      clients_ok = clients_ok;
      rules_ok = rules_ok;
    }

ports_in_range :
    (first : ℤ) (n : ℕ)
    → no_port first ≡ false
    → (ltb 0 n && beyond_ports first n) ≡ false
    → (pos 1 ≤ℤ first) × (first +ℤ pos n ≤ℤ pos 65536)
ports_in_range first n port enough = ground (arith, port, enough)

custom_tags-Among :
    (c : Config) (x : Str) → Among x (custom_tags c) → Among x (enabled_tags c.outbounds)
unfolding custom_tags
custom_tags-Among c x a =
    elim (onto-Among [] (enabled_tags c.outbounds) x
      (rw (see_outbounds-onto [] c.outbounds) at a)) [
        | inl target ↦ target
        | inr nowhere ↦ absurd nowhere
      ]

-- If `Validate` accepts an enabled configuration, the targets (the enabled outbounds and the
-- pools) have different tags that are not reserved, each pool has at least two members, which are
-- enabled outbounds and different, the ports of the targets are ports, and every rule that proxies
-- and every client with the policy proxy names a target. The ports of the rules are read.
pub validate-IsSound : (c : Config) → c.main.enabled ≡ true → validate c ≡ none → IsSound c
validate-IsSound c on e =
    let p = validate-Passed c on e in
    let seen = see_outbounds builtin_tags c.outbounds in
    let custom = enabled_tags c.outbounds in
    let (fresh, free) = check_outbounds-Fresh builtin_tags c.outbounds p.outbounds_ok in
    let (fresh_pools, free_pools, pools) =
      check_pools-Fresh (custom_tags c) seen c.outbound_pools p.pools_ok in
    let pool_tags = trimmed_pool_tags c.outbound_pools in
    let (first, last) =
      ports_in_range c.main.tproxy_port (length (proxy_target_tags c)) p.tproxy p.enough in
    record {
      targets_distinct = Fresh-Distinct builtin_tags (custom ++ pool_tags) (
          Fresh-append builtin_tags custom pool_tags fresh (
            subst (λ s. Fresh s pool_tags) (see_outbounds-onto builtin_tags c.outbounds)
              fresh_pools));
      targets_free = Each-append IsFree custom pool_tags free free_pools;
      pools =
          Each-map (IsPool (custom_tags c)) (IsPool custom) c.outbound_pools
            (λ q (two, members, distinct).
              (two, Each-map _ _ q.outbounds (custom_tags-Among c) members, distinct))
            pools;
      first_port = first;
      last_port = last;
      rules =
          Each-map _ _ (checked_rules c) (check_rule-IsRouted c)
            (check_each-Each _ (checked_rules c) p.rules_ok);
      clients =
          Each-map _ _ c.clients (proxy_client_outbound c)
            (check_each-Each _ c.clients p.clients_ok);
    }
