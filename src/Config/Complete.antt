-- ===== src/Config/Complete.antt =====
-- The upstream that `DNSUpstream` makes has what a client of it needs.
use zakop.Prelude.{
  ◌≡◌, ◌≢◌, inl, inr, sym, ap, ◌∙◌, false, ◌&&◌, [], ◌∷◌, arith, if◌then◌else◌, Bool-cases,
}
use zakop.Text.{Str, codes, str_eq, trim_space}
use zakop.Text.Match.{str_eq_iff}
use zakop.Config.Types.{Main, DnsUpstream}
use zakop.Config.Access.{first_non_empty}
use zakop.Config.Lists.{is_empty}
use zakop.Config.Dns.{
  is_zero, normalize_dns_protocol, default_dns_port, preset_dns_upstream, of_preset, with_defaults,
  from_real_upstream, from_legacy, custom_upstream, or_default, dns_upstream,
}

pub record IsComplete (u : DnsUpstream) : Type 0 where
  pub has_port : is_zero u.port ≡ false
  pub has_path : u.protocol ≡ codes "https" → u.path ≢ []
  pub has_protocol : u.protocol ≢ []

default_dns_port-positive : (protocol : Str) → is_zero (default_dns_port protocol) ≡ false
unfolding default_dns_port
default_dns_port-positive protocol = ground arith

preset-path : (preset protocol : Str) → (preset_dns_upstream preset protocol).2 ≡ codes "/dns-query"
unfolding preset_dns_upstream
preset-path preset protocol = ground arith

query_path : codes "/dns-query" ≢ []
query_path e = absurd (ground arith)

of_preset-IsComplete :
    (preset protocol : Str) → protocol ≢ [] → IsComplete (of_preset preset protocol)
of_preset-IsComplete preset protocol p = record {
  has_port = default_dns_port-positive protocol;
  has_path = λ e nil. query_path (sym (preset-path preset protocol) ∙ nil);
  has_protocol = p;
}

with_path-IsComplete :
    (protocol : Str) (v : DnsUpstream)
    → is_zero v.port ≡ false
    → v.protocol ≡ protocol
    → protocol ≢ []
    → IsComplete (
        if str_eq protocol (codes "https") && is_empty v.path
        then record v { path = codes "/dns-query" }
        else v)
with_path-IsComplete protocol v positive same p =
    elim (Bool-cases (str_eq protocol (codes "https") && is_empty v.path)) [
      | inl missing ↦ rw missing (record {
        has_port = positive;
        has_path = λ e nil. query_path nil;
        has_protocol = λ nil. p (sym same ∙ nil);
      })
      | inr present ↦ rw present (record {
        has_port = positive;
        has_path = λ e nil. absurd (
            ground (
              arith,
              present,
              (str_eq_iff protocol (codes "https")).1 (sym same ∙ e),
              ap is_empty nil,
            ));
        has_protocol = λ nil. p (sym same ∙ nil);
      })
    ]

with_defaults-IsComplete :
    (protocol : Str) (u : DnsUpstream)
    → u.protocol ≡ protocol
    → protocol ≢ []
    → IsComplete (with_defaults protocol u)
with_defaults-IsComplete protocol u same p = elim (Bool-cases (is_zero u.port)) [
  | inl zero_port ↦ rw zero_port (
      with_path-IsComplete protocol (record u { port = default_dns_port protocol })
        (default_dns_port-positive protocol) same p)
  | inr set_port ↦ rw set_port (with_path-IsComplete protocol u set_port same p)
]

or_default-some : (fallback value : Str) → fallback ≢ [] → or_default fallback value ≢ []
or_default-some fallback [] f e = f e
or_default-some fallback (c ∷ s) f e = absurd (ground arith)

from_legacy-protocol : (m : Main) (u : DnsUpstream) → (from_legacy m u).protocol ≡ u.protocol
from_legacy-protocol m u = ground arith

from_real_upstream-protocol :
    (m : Main) (u : DnsUpstream) → (from_real_upstream m u).protocol ≡ u.protocol
from_real_upstream-protocol m u = ground arith

-- Whatever the main section holds, the upstream of `DNSUpstream` has a port that is not 0 and a
-- protocol, and a path where the protocol is https.
pub dns_upstream-IsComplete : (m : Main) → IsComplete (dns_upstream m)
unfolding dns_upstream
dns_upstream-IsComplete m =
    let protocol = or_default (codes "udp") (
      normalize_dns_protocol
        (first_non_empty (m.real_dns_transport ∷ m.dns_upstream_protocol ∷ []))) in
    let preset =
      or_default (codes "custom")
        (trim_space (first_non_empty (m.dns_upstream_preset ∷ codes "custom" ∷ []))) in
    let some_protocol : protocol ≢ [] =
      or_default-some (codes "udp")
        (normalize_dns_protocol
          (first_non_empty (m.real_dns_transport ∷ m.dns_upstream_protocol ∷ [])))
        (λ e. absurd (ground arith)) in
    let custom = custom_upstream m preset protocol in
    elim (Bool-cases (str_eq preset (codes "custom"))) [
      | inl own ↦ rw own (
          with_defaults-IsComplete protocol (from_real_upstream m (from_legacy m custom))
            (from_real_upstream-protocol m (from_legacy m custom) ∙ from_legacy-protocol m custom)
            some_protocol)
      | inr named ↦ rw named (of_preset-IsComplete preset protocol some_protocol)
    ]
