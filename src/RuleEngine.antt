-- ===== src/RuleEngine.antt =====
-- internal/ruleengine/ruleengine.go: which rule a domain name falls under, and what it decides.
pub mod Matches
pub mod Decides
pub mod CaseFold
use zakop.Prelude.{
  ℕ, ◌+◌, Bool, true, false, not, ◌&&◌, ◌||◌, List, [], ◌∷◌, Option, none, some, ltb, ◌==◌,
  if◌then◌else◌, length,
}
use zakop.Text.{
  Str, codes, str_eq, trim_space, trim_right, to_lower, has_prefix, has_suffix, contains,
}
use zakop.Config.Types.{Rule}

-- A nil `Rule` pointer is `none`.
pub record Decision : Type 0 where
  pub rule : Option Rule
  pub action : Str
  pub dns_mode : Str
  pub outbound : Str

unfoldable pub normalize_domain : Str → Str
normalize_domain name = trim_right (λ c. c == b'.') (to_lower (trim_space name))

unfoldable pub match_any_domain : List Str → Str → (Str → Str → Bool) → Bool
match_any_domain [] name fn = false
match_any_domain (pattern' ∷ ps) name fn =
    if fn name (normalize_domain pattern') then true else match_any_domain ps name fn

unfoldable pub domain_excluded : Rule → Str → Bool
domain_excluded r name =
    match_any_domain r.exclude_domain_equals name str_eq
    || match_any_domain r.exclude_domain_contains name contains
    || match_any_domain r.exclude_domain_starts_with name has_prefix
    || match_any_domain r.exclude_domain_ends_with name has_suffix

unfoldable pub has_domain_includes : Rule → Bool
has_domain_includes r = ltb 0 (
    length r.domain_equals
    + length r.domain_contains
    + length r.domain_starts_with
    + length r.domain_ends_with)

-- The part of `MatchDomain` behind the normalisation of the name.
unfoldable pub match_normalized : Rule → Str → Bool
match_normalized r name =
    if str_eq name []
    then false
    else if domain_excluded r name
    then false
    else if has_domain_includes r
    then match_any_domain r.domain_equals name str_eq
      || match_any_domain r.domain_contains name contains
      || match_any_domain r.domain_starts_with name has_prefix
      || match_any_domain r.domain_ends_with name has_suffix
    else false

unfoldable pub match_domain : Rule → Str → Bool
unfolding match_normalized
match_domain r name = if not r.enabled then false else match_normalized r (normalize_domain name)

unfoldable pub effective_dns_mode : Rule → Str
effective_dns_mode r =
    if str_eq r.action (codes "direct")
    then codes "real_ip"
    else if str_eq r.action (codes "block")
    then codes "block"
    else if not (str_eq r.dns_mode (codes "auto"))
    then r.dns_mode
    else if str_eq r.action (codes "proxy") && has_domain_includes r
    then codes "fakeip"
    else codes "real_ip"

abbrev pub direct_decision : Decision
direct_decision = record {
  rule = none;
  action = codes "direct";
  dns_mode = codes "real_ip";
  outbound = [];
}

abbrev pub decision_of : Rule → Decision
decision_of r = record {
  rule = some r;
  action = r.action;
  dns_mode = effective_dns_mode r;
  outbound = r.outbound;
}

unfoldable pub domain_decision : List Rule → Str → Decision
domain_decision [] name = direct_decision
domain_decision (r ∷ rs) name =
    if not (match_domain r name) then domain_decision rs name else decision_of r

unfoldable pub has_ip_match : Rule → Bool
has_ip_match r =
    r.enabled
    && ltb 0 (length r.ip_cidrs + length r.files + length r.ip_providers + length r.providers)
