-- ===== src/Provider/Lists.antt =====
-- internal/provider/update.go: the values of a downloaded list.
use zakop.Prelude.{List, [], ◌∷◌, ◌++◌, Option, none, some, ◌==◌, if◌then◌else◌, length, drop}
use zakop.Text.{Str, codes, str_eq, to_lower, trim_right, trim_space, has_prefix, contains, fields}
use zakop.Text.Scanner.{scan_lines}
use zakop.Policy.Cidr.{IpNet, v4, normalize_ipv4_cidrs}
use zakop.Policy.Parse.{parse_ipv4_cidr, strip_provider_comment}
use zakop.Config.Types.{Provider}
use zakop.Config.Lists.{is_empty, clean_from}
use zakop.Nft.Sets.{cidr_strings}

-- `cleanLines`. `stripLineComment` is the code of `stripProviderComment`.
unfoldable pub line_values : List Str → List Str
line_values [] = []
line_values (line ∷ lines) = fields (trim_space (strip_provider_comment line)) ++ line_values lines

unfoldable pub clean_lines : Str → List Str
clean_lines data' = line_values (scan_lines data')

-- `normalizeDomainValue`.
abbrev without_prefix : Str → Str → Str
without_prefix s prefix = if has_prefix s prefix then drop (length prefix) s else s

unfoldable pub normalize_domain_value : Str → Str
normalize_domain_value value =
    without_prefix
      (without_prefix (trim_right (λ c. c == b'.') (to_lower (trim_space value))) (codes "*."))
      (codes ".")

-- `normalizeDomainList`: its loop is that of `cleanList` with another normalisation.
unfoldable pub normalize_domain_list : Str → List Str
normalize_domain_list data' = clean_from normalize_domain_value [] (clean_lines data')

-- The loop of `normalizeIPList`; an error is `none`.
unfoldable pub cidr_values : List Str → Option (List (Option IpNet))
cidr_values [] = some []
cidr_values (v ∷ vs) = elim (parse_ipv4_cidr v) [
  | none ↦ if contains v (codes ":") then cidr_values vs else none
  | some (a, ones) ↦ elim (cidr_values vs) [
    | none ↦ none
    | some nets ↦ some (some (v4 a ones) ∷ nets)
  ]
]

-- `normalizeIPList`.
unfoldable pub normalize_ip_list : Str → Option (List Str)
normalize_ip_list data' = elim (cidr_values (clean_lines data')) [
  | none ↦ none
  | some nets ↦ some (cidr_strings (normalize_ipv4_cidrs nets))
]

-- `NormalizeDownloadedList`.
unfoldable pub normalize_downloaded_list : Provider → Str → Option (List Str)
normalize_downloaded_list p data' =
    if str_eq p.type (codes "domain")
    then some (normalize_domain_list data')
    else if str_eq p.type (codes "ip")
    then normalize_ip_list data'
    else none

-- The text that `WriteCache` writes.
unfoldable pub cache_text : List Str → Str
cache_text [] = []
cache_text (item ∷ items) =
    let rest = cache_text items in
    if is_empty (trim_space item) then rest else trim_space item ++ (10 ∷ rest)
