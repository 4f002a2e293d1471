-- ===== src/Config/Lists.antt =====
-- internal/config/config.go: lists of option values, and the small parsers of one value.
use zakop.Prelude.{
  ℕ, Bool, true, false, ◌&&◌, ◌||◌, List, [], ◌∷◌, ◌++◌, Option, none, some, leb, ◌==◌,
  if◌then◌else◌,
}
use zakop.Prelude.Int.{ℤ, pos, ltb_ℤ}
use zakop.Text.{Str, codes, str_eq, to_lower, trim_left, trim_right, trim_space, fields_func, split}
use zakop.Text.Number.{atoi}
use zakop.Dict.{contains_text}

abbrev pub is_empty : Str → Bool
is_empty [] = true
is_empty (c ∷ s) = false

-- The loop of `cleanList` and `cleanDomainList`, which normalise a value by `norm`; `seen` are the
-- keys of the map.
unfoldable pub clean_from : (Str → Str) → List Str → List Str → List Str
clean_from norm seen [] = []
clean_from norm seen (v ∷ vs) =
    let value = norm v in
    let skip = is_empty value || contains_text seen value in
    let rest = clean_from norm (if skip then seen else value ∷ seen) vs in
    if skip then rest else value ∷ rest

-- `cleanList`.
unfoldable pub clean_list : List Str → List Str
clean_list values = clean_from trim_space [] values

-- The value that `cleanDomainList` keeps.
unfoldable pub domain_value : Str → Str
domain_value value = trim_right (λ c. c == b'.') (to_lower (trim_space value))

unfoldable pub clean_domain_list : List Str → List Str
clean_domain_list values = clean_from domain_value [] values

-- `trimList`.
unfoldable pub trim_list : List Str → List Str
trim_list [] = []
trim_list (v ∷ vs) =
    let rest = trim_list vs in if is_empty (trim_space v) then rest else trim_space v ∷ rest

-- `appendList`.
abbrev pub append_list : List Str → List Str → List Str
append_list a b = a ++ b

-- `safeProviderName`.
abbrev safe_rune : ℕ → ℕ
safe_rune r =
    if leb b'a' r && leb r b'z'
    then r
    else if leb b'A' r && leb r b'Z'
    then r
    else if leb b'0' r && leb r b'9'
    then r
    else b'_'

abbrev safe_runes : Str → Str
safe_runes [] = []
safe_runes (r ∷ rs) = safe_rune r ∷ safe_runes rs

abbrev is_underscore : ℕ → Bool
is_underscore c = c == b'_'

unfoldable pub safe_provider_name : Str → Str
safe_provider_name value =
    trim_right is_underscore (trim_left is_underscore (safe_runes (trim_space value)))

-- `splitListOption`.
unfoldable pub split_list_option : Str → List Str
split_list_option value = fields_func (λ r. r == b',' || r == b' ' || r == 9 || r == 10) value

-- `parseBool`.
unfoldable pub parse_bool : Str → Bool → Bool
parse_bool v fallback =
    let word = to_lower (trim_space v) in
    if contains_text (codes "1" ∷ codes "true" ∷ codes "yes" ∷ codes "on" ∷ codes "enabled" ∷ [])
      word
    then true
    else if contains_text
        (codes "0" ∷ codes "false" ∷ codes "no" ∷ codes "off" ∷ codes "disabled" ∷ []) word
    then false
    else fallback

-- `parseRulePort`; an error is `none`.
unfoldable pub parse_rule_port : Str → Option ℤ
parse_rule_port raw =
    let value = trim_space raw in
    if is_empty value then none else elim (atoi value) [
      | none ↦ none
      | some n ↦ if ltb_ℤ n (pos 1) || ltb_ℤ (pos 65535) n then none else some n
    ]

abbrev pub ports_of : List Str → Option (ℤ × ℤ)
ports_of (a ∷ []) = elim (parse_rule_port a) [ none ↦ none | some start ↦ some (start, start) ]
ports_of (a ∷ b ∷ []) = elim (parse_rule_port a) [
  | none ↦ none
  | some start ↦ elim (parse_rule_port b) [
    | none ↦ none
    | some end ↦ if ltb_ℤ end start then none else some (start, end)
  ]
]
ports_of _ = none

-- `parseRulePortRange`.
unfoldable pub parse_rule_port_range : Str → Option (ℤ × ℤ)
parse_rule_port_range raw =
    let value = trim_space raw in if is_empty value then none else ports_of (split b'-' value)

-- `normalizeClientPolicy`: the policy, and the warning, which is empty where there is none.
unfoldable pub normalize_client_policy : Str → Str × Str
normalize_client_policy policy =
    let p = trim_space policy in
    if is_empty p || str_eq p (codes "default")
    then (codes "default", [])
    else if str_eq p (codes "proxy")
    then (codes "proxy", [])
    else if str_eq p (codes "proxy_default")
    then (codes "proxy", codes "policy 'proxy_default' is deprecated; using 'proxy'")
    else if str_eq p (codes "direct")
    then (codes "direct", [])
    else if str_eq p (codes "bypass")
    then (codes "direct", codes "policy 'bypass' is deprecated; using 'direct'")
    else (policy, [])

-- `normalizeClientOutbound`.
unfoldable pub normalize_client_outbound : Str → Str
normalize_client_outbound outbound =
    let o = trim_space outbound in if str_eq o (codes "proxy_default") then [] else o
