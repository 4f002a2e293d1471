-- ===== src/DnsProxy/Decision.antt =====
-- Who is sent to the FakeIP server, who is blocked, and what the handlers do with a query.
use zakop.Prelude.{
  ◌≡◌, ◌≢◌, ◌↔◌, ◌⊎◌, inl, inr, refl, sym, ap, ◌∙◌, true, false, Option, none, some, arith,
  Bool-cases, Option-cases,
}
use zakop.Text.{Str, codes, str_eq}
use zakop.Text.Match.{str_eq_iff, str_eq_refl}
use zakop.RuleEngine.{Decision, direct_decision, domain_decision}
use zakop.DnsProxy.Message.{Bytes, Query, parse_query, nxdomain_response}
use zakop.DnsProxy.Routing.{
  Proxy, is_lan_client, client_policy, client_decision, is_fake, use_fake_upstream, upstream_for,
  local_answer, local_response,
}
use zakop.DnsProxy.Forward.{
  Slots, Pools, Network, acquire, give_back, reserve_forward, release_forward, handle_query,
}

-- The query asks for a name that the rules, and not a special case, decide for this client.
pub record Governed (p : Proxy) (client_ip : Str) : Type 0 where
  pub on_lan : is_lan_client p client_ip ≡ true
  pub not_direct : client_policy p client_ip ≢ codes "direct"
  pub not_global : p.routing_mode ≢ codes "global"

-- The decision is that of the rules or, where they do not govern the client, direct.
client_decision_cases :
    (p : Proxy) (name client_ip : Str)
    → (Governed p client_ip × (client_decision p name client_ip ≡ domain_decision p.rules name))
      ⊎ ((¬ Governed p client_ip) × (client_decision p name client_ip ≡ direct_decision))
unfolding client_decision
client_decision_cases p name ip = elim (Bool-cases (is_lan_client p ip)) [
  | inr off ↦ rw off (inr ((λ g. cc (g.on_lan)), refl))
  | inl on ↦ rw on (elim (Bool-cases (str_eq (client_policy p ip) (codes "direct"))) [
    | inl direct ↦ rw direct (inr ((λ g. g.not_direct ((str_eq_iff _ _).0 direct)), refl))
    | inr other ↦ rw other (elim (Bool-cases (str_eq p.routing_mode (codes "global"))) [
      | inl global ↦ rw global (inr ((λ g. g.not_global ((str_eq_iff _ _).0 global)), refl))
      | inr custom ↦ rw custom (
          inl (
            record {
              on_lan = on;
              not_direct = ground (arith, str_eq_iff (client_policy p ip) (codes "direct"));
              not_global = ground (arith, str_eq_iff p.routing_mode (codes "global"));
            },
            refl,
          ))
    ])
  ])
]

is_fake_iff :
    (d : Decision)
    → (is_fake d ≡ true) ↔ ((d.action ≡ codes "proxy") × (d.dns_mode ≡ codes "fakeip"))
is_fake_iff d =
    ground (arith, str_eq_iff d.action (codes "proxy"), str_eq_iff d.dns_mode (codes "fakeip"))

direct_not_fake : is_fake direct_decision ≡ false
unfolding str_eq
direct_not_fake = refl

upstream_for_use :
    (p : Proxy) (msg : Bytes) (client_ip : Str)
    → p.real_direct_upstream ≢ p.fake_upstream
    → p.real_proxy_upstream ≢ p.fake_upstream
    → (upstream_for p msg client_ip ≡ p.fake_upstream) ↔ (use_fake_upstream p msg client_ip ≡ true)
unfolding upstream_for
upstream_for_use p msg ip d e = ground arith

use_fake_upstream_query :
    (p : Proxy) (msg : Bytes) (client_ip : Str)
    → ((parse_query msg ≡ none) × (use_fake_upstream p msg client_ip ≡ false))
      ⊎ ((q : Query) × (parse_query msg ≡ some q)
          × (use_fake_upstream p msg client_ip ≡ is_fake (client_decision p q.name client_ip)))
unfolding use_fake_upstream
use_fake_upstream_query p msg ip = elim (Option-cases (parse_query msg)) [
  | inl bad ↦ inl (bad, rw (bad, use_fake_upstream))
  | inr (q, e) ↦ inr (q, e, rw (e, use_fake_upstream))
]

-- Where the FakeIP server is none of the two real ones, a query goes to it exactly when the
-- query can be parsed, its client is on the LAN and has no direct policy, the routing mode is
-- not global, and the rules decide that the name goes to the proxy with FakeIP.
pub upstream_for_fake :
    (p : Proxy) (msg : Bytes) (client_ip : Str)
    → p.real_direct_upstream ≢ p.fake_upstream
    → p.real_proxy_upstream ≢ p.fake_upstream
    → (upstream_for p msg client_ip ≡ p.fake_upstream) ↔ (
        (q : Query) × (parse_query msg ≡ some q)
        × Governed p client_ip
        × ((domain_decision p.rules q.name).action ≡ codes "proxy")
        × ((domain_decision p.rules q.name).dns_mode ≡ codes "fakeip"))
upstream_for_fake p msg ip d e = (
  (λ up. forwards ((upstream_for_use p msg ip d e).0 up)),
  λ (q, parsed, g, action, mode).
      (upstream_for_use p msg ip d e).1 (backwards q parsed g action mode),
)
  where
    forwards :
        use_fake_upstream p msg ip ≡ true
        → (q : Query) × (parse_query msg ≡ some q)
          × Governed p ip
          × ((domain_decision p.rules q.name).action ≡ codes "proxy")
          × ((domain_decision p.rules q.name).dns_mode ≡ codes "fakeip")
    forwards used = elim (use_fake_upstream_query p msg ip) [
      | inl (bad, unused) ↦ absurd (ground (arith, used, unused))
      | inr (q, parsed, same) ↦ elim (client_decision_cases p q.name ip) [
        | inr (_, direct) ↦ absurd (ground (arith, used, same, ap is_fake direct, direct_not_fake))
        | inl (g, ruled) ↦
            let both =
              (is_fake_iff (domain_decision p.rules q.name)).0
                (sym (ap is_fake ruled) ∙ sym same ∙ used) in
            (q, parsed, g, both.0, both.1)
      ]
    ]

    backwards :
        (q : Query)
        → parse_query msg ≡ some q
        → Governed p ip
        → (domain_decision p.rules q.name).action ≡ codes "proxy"
        → (domain_decision p.rules q.name).dns_mode ≡ codes "fakeip"
        → use_fake_upstream p msg ip ≡ true
    backwards q parsed g action mode = elim (use_fake_upstream_query p msg ip) [
      | inl (bad, _) ↦ cc (bad, parsed)
      | inr (r, again, same) ↦
          let one : r ≡ q = cc (again, parsed) in
          elim (client_decision_cases p q.name ip) [
            | inr (not_g, _) ↦ absurd (not_g g)
            | inl (_, ruled) ↦
                same
                ∙ ap (λ (x : Query). is_fake (client_decision p x.name ip)) one
                ∙ ap is_fake ruled
                ∙ (is_fake_iff (domain_decision p.rules q.name)).1 (action, mode)
          ]
    ]

-- A name that the rules block for the client is answered by NXDOMAIN, whatever the upstreams
-- would reply and however full the pools are, and the pools stay as they are.
pub handle_query_blocked :
    (network : Network) (p : Proxy) (pools : Pools) (msg : Bytes) (client_ip : Str) (q : Query)
    → parse_query msg ≡ some q
    → Governed p client_ip
    → (domain_decision p.rules q.name).action ≡ codes "block"
    → handle_query network p pools msg client_ip
      ≡ (some (nxdomain_response msg q.question_end), pools)
unfolding handle_query
handle_query_blocked network p pools msg ip q parsed g block =
    elim (client_decision_cases p q.name ip) [
      | inr (not_g, _) ↦ absurd (not_g g)
      | inl (_, ruled) ↦
          let here : local_response p msg ip ≡ some (nxdomain_response msg q.question_end) =
            unfold local_response local_answer in
            rw (parsed, local_response, ruled, block, str_eq_refl (codes "block")) in
          rw (here, handle_query)
    ]

acquire-give_back : (s t : Option Slots) → acquire s ≡ some t → give_back t ≡ s
unfolding acquire give_back
acquire-give_back none t e = ground arith
acquire-give_back (some s) t e = ground arith

reserve-release :
    (p : Proxy) (pools reserved : Pools) (upstream : Str)
    → reserve_forward p pools upstream ≡ some reserved
    → release_forward p reserved upstream ≡ pools
unfolding reserve_forward release_forward
reserve-release p pools reserved upstream e = elim (Bool-cases (str_eq upstream p.fake_upstream)) [
  | inl fake ↦ elim (Option-cases (acquire pools.fake)) [
    | inl full ↦ absurd (ground (arith, fake, full))
    | inr (t, took) ↦ ground (arith, fake, took, acquire-give_back pools.fake t took)
  ]
  | inr real ↦ elim (Option-cases (acquire pools.real)) [
    | inl full ↦ absurd (ground (arith, real, full))
    | inr (t, took) ↦ ground (arith, real, took, acquire-give_back pools.real t took)
  ]
]

-- A handler gives back every slot that it takes: the pools afterwards are the pools before.
pub handle_query_pools :
    (network : Network) (p : Proxy) (pools : Pools) (msg : Bytes) (client_ip : Str)
    → (handle_query network p pools msg client_ip).1 ≡ pools
unfolding handle_query
handle_query_pools network p pools msg ip = elim (Option-cases (local_response p msg ip)) [
  | inr (resp, here) ↦ rw (here, handle_query)
  | inl none_here ↦
      rw (none_here, handle_query)
        (elim (Option-cases (reserve_forward p pools (upstream_for p msg ip))) [
          | inl busy ↦ rw busy
          | inr (reserved, taken) ↦
              rw taken (reserve-release p pools reserved (upstream_for p msg ip) taken)
        ])
]
