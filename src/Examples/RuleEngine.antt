-- ===== src/Examples/RuleEngine.antt =====
-- internal/ruleengine/ruleengine.go on concrete rules.
use zakop.Prelude.{◌≡◌, ◌↔◌, refl, true, false, [], ◌∷◌}
use zakop.Prelude.Int.{pos}
use zakop.Text.{codes, str_eq, to_lower, trim_space, trim_right, contains, has_suffix, lower_rune}
use zakop.Config.Types.{Rule}
use zakop.RuleEngine.{
  normalize_domain, match_any_domain, domain_excluded, has_domain_includes, match_domain,
}
use zakop.RuleEngine.Matches.{Applies, match_domain_iff}

abbrev video : Rule
video = record {
  name = codes "video";
  enabled = true;
  priority = pos 10;
  action = codes "proxy";
  outbound = codes "vpn";
  dns_mode = codes "auto";
  domain_equals = [];
  domain_contains = codes "video" ∷ [];
  domain_starts_with = [];
  domain_ends_with = codes ".Example.com." ∷ [];
  exclude_domain_equals = codes "static.example.com" ∷ [];
  exclude_domain_contains = [];
  exclude_domain_starts_with = [];
  exclude_domain_ends_with = [];
  domain_files = [];
  ip_cidrs = [];
  files = [];
  domain_providers = [];
  ip_providers = [];
  providers = [];
  proto = [];
  src_ports = [];
  dst_ports = [];
}

video_runs :
    (match_domain video (codes " WWW.example.com. ") ≡ true)
    × (match_domain video (codes "static.example.com") ≡ false)
    × (match_domain video (codes ".") ≡ false)
unfolding match_domain normalize_domain match_any_domain domain_excluded has_domain_includes
    to_lower lower_rune trim_space trim_right str_eq contains has_suffix
video_runs = (refl, refl, refl)

match_domain_iff_example :
    (match_domain video (codes "my.video.net") ≡ true) ↔ Applies video (codes "my.video.net")
match_domain_iff_example = match_domain_iff video (codes "my.video.net")
