-- ===== src/Policy/Load.antt =====
-- internal/policy/cidr.go: `LoadIPv4CIDRsFile`, on the text of the file.
use zakop.Prelude.{List, [], ◌∷◌, Option, none, some, if◌then◌else◌}
use zakop.Text.{Str, trim_space}
use zakop.Text.Scanner.{scan_lines, scan_fails, no_text}
use zakop.Policy.Cidr.{IpNet, v4, normalize_ipv4_cidrs}
use zakop.Policy.Parse.{parse_ipv4_cidr, strip_provider_comment}

-- The loop; an error is `none`.
unfoldable pub load_values : List Str → Option (List (Option IpNet))
load_values [] = some []
load_values (raw ∷ raws) =
    let line = trim_space (strip_provider_comment raw) in
    let rest = load_values raws in
    if no_text line then rest else elim (parse_ipv4_cidr line) [
      | none ↦ none
      | some (a, ones) ↦ elim rest [ none ↦ none | some nets ↦ some (some (v4 a ones) ∷ nets) ]
    ]

-- `LoadIPv4CIDRsFile`.
unfoldable pub load_ipv4_cidrs : Str → Option (List IpNet)
load_ipv4_cidrs text = elim (load_values (scan_lines text)) [
  | none ↦ none
  | some nets ↦ if scan_fails text then none else some (normalize_ipv4_cidrs nets)
]
