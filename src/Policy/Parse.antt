-- ===== src/Policy/Parse.antt =====
-- internal/policy/cidr.go: `ParseIPv4CIDR`, and the text of a network.
use zakop.Prelude.{ℕ, ◌-◌, ◌/◌, ◌*◌, ◌^◌, ◌++◌, Option, none, some, if◌then◌else◌}
use zakop.Text.{Str, codes, contains, cut}
use zakop.Text.Number.{itoa}
use zakop.Net.{ipv4_string}
use zakop.Net.Parse.{parse_cidr}
use zakop.Policy.Cidr.{IpNet, v4, other}

-- `ParseIPv4CIDR`; an error is `none`.
abbrev pub ipv4_only : Option (Option ℕ × IpNet) → Option (ℕ × ℕ)
ipv4_only none = none
ipv4_only (some (none, net)) = none
ipv4_only (some (some a, other)) = none
ipv4_only (some (some a, v4 b ones)) = some (a / 2 ^ (32 - ones) * 2 ^ (32 - ones), ones)

unfoldable pub parse_ipv4_cidr : Str → Option (ℕ × ℕ)
parse_ipv4_cidr s =
    let text = if contains s (codes "/") then s else s ++ codes "/32" in ipv4_only (parse_cidr text)

-- `ipnet.String()`.
abbrev pub cidr_string : ℕ × ℕ → Str
cidr_string (a, ones) = ipv4_string a ++ (codes "/" ++ itoa ones)

-- `stripProviderComment`.
unfoldable pub strip_provider_comment : Str → Str
strip_provider_comment s = elim (cut b'#' s) [ none ↦ s | some (before, _) ↦ before ]
