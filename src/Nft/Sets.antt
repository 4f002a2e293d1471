-- ===== src/Nft/Sets.antt =====
-- internal/nft/generator.go: the sets of the ruleset, and the texts that its rules share.
use zakop.Prelude.{
  ℕ, Bool, true, false, not, ◌&&◌, ◌||◌, List, [], ◌∷◌, ◌++◌, Option, none, some, ltb, ◌==◌,
  if◌then◌else◌, map,
}
use zakop.Text.{Str, codes, str_eq, join}
use zakop.Importer.Format.{replace_all}
use zakop.Policy.Cidr.{IpNet, v4, other, normalize_ipv4_cidrs}
use zakop.Policy.Parse.{parse_ipv4_cidr, cidr_string}
use zakop.ProxyRoute.{four_digits}
use zakop.Config.Types.{Main, Client}

-- The order of `sort.Strings`. Texts that it does not separate are equal.
abbrev pub text_before : Str → Str → Bool
text_before a [] = false
text_before [] (y ∷ b) = true
text_before (x ∷ a) (y ∷ b) = ltb x y || (x == y && text_before a b)

unfoldable pub insert_text : Str → List Str → List Str
insert_text t [] = t ∷ []
insert_text t (x ∷ xs) =
    let later = insert_text t xs in if text_before x t then x ∷ later else t ∷ x ∷ xs

unfoldable pub sort_texts : List Str → List Str
sort_texts [] = []
sort_texts (t ∷ ts) = insert_text t (sort_texts ts)

-- `writeSet`.
abbrev elements_line : List Str → Str
elements_line [] = []
elements_line (e ∷ es) = codes "\t\telements = { " ++ (join (e ∷ es) (codes ", ") ++ codes " }\n")

unfoldable pub write_set : Str → List Str → Str
write_set name elements =
    codes "\tset "
    ++ (name
        ++ (codes " {\n\t\ttype ipv4_addr\n\t\tflags interval\n\t\tauto-merge\n"
            ++ (elements_line (sort_texts elements) ++ codes "\t}\n")))

-- `policy.CIDRStrings`, for the networks of `NormalizeIPv4CIDRs`, which are of the first form.
abbrev net_text : IpNet → Str
net_text (v4 a ones) = cidr_string (a, ones)
net_text other = []

unfoldable pub cidr_strings : List IpNet → List Str
cidr_strings nets = map net_text nets

-- `policy.MustIPv4CIDRs`; a panic is `none`.
unfoldable pub parse_all : List Str → Option (List (Option IpNet))
parse_all [] = some []
parse_all (v ∷ vs) = elim (parse_ipv4_cidr v) [
  | none ↦ none
  | some (a, ones) ↦ elim (parse_all vs) [
    | none ↦ none
    | some nets ↦ some (some (v4 a ones) ∷ nets)
  ]
]

unfoldable pub must_ipv4_cidrs : List Str → Option (List IpNet)
must_ipv4_cidrs values = elim (parse_all values) [
  | none ↦ none
  | some nets ↦ some (normalize_ipv4_cidrs nets)
]

abbrev pub always_reserved : List Str
always_reserved =
    codes "0.0.0.0/8"
    ∷ codes "10.0.0.0/8"
    ∷ codes "100.64.0.0/10"
    ∷ codes "127.0.0.0/8"
    ∷ codes "169.254.0.0/16"
    ∷ codes "172.16.0.0/12"
    ∷ codes "192.0.0.0/24"
    ∷ codes "192.0.2.0/24"
    ∷ codes "192.168.0.0/16"
    ∷ codes "198.51.100.0/24"
    ∷ codes "203.0.113.0/24"
    ∷ codes "224.0.0.0/4"
    ∷ codes "240.0.0.0/4"
    ∷ []

-- `reservedCIDRs`: the texts, and the networks.
unfoldable pub reserved_values : Main → List Str
reserved_values m =
    always_reserved
    ++ (if not m.fakeip_enabled || not (str_eq m.fakeip_range (codes "198.18.0.0/15"))
        then codes "198.18.0.0/15" ∷ []
        else [])

unfoldable pub reserved_cidrs : Main → Option (List IpNet)
reserved_cidrs m = must_ipv4_cidrs (reserved_values m)

-- `collectClients`.
unfoldable pub collect_clients : List Client → Str → List Str
collect_clients [] policy = []
collect_clients (cl ∷ cls) policy =
    let rest = collect_clients cls policy in if str_eq cl.policy policy then cl.ip ∷ rest else rest

-- `ruleSetName`.
unfoldable pub rule_set_name : ℕ → Str
rule_set_name index = codes "rule4_" ++ four_digits index

-- `quoteNFTString`.
unfoldable pub quote_nft_string : Str → Str
quote_nft_string s =
    b'"'
    ∷ (replace_all b'"' (b'\\' ∷ b'"' ∷ []) (replace_all b'\\' (b'\\' ∷ b'\\' ∷ []) s)
        ++ (b'"' ∷ []))

-- `ifaceMatcher`, for a list that is not empty.
unfoldable pub iface_matcher : List Str → Str
iface_matcher (i ∷ []) = quote_nft_string i
iface_matcher ifaces = codes "{ " ++ (join (map quote_nft_string ifaces) (codes ", ") ++ codes " }")

-- `lanSourceMatcher`, `lanGuardRule` and `counter`.
unfoldable pub lan_source_matcher : Main → Str
lan_source_matcher m = elim m.lan_ifaces [
  | [] ↦ codes "ip saddr @lan_subnets4"
  | i ∷ is ↦ codes "iifname " ++ (iface_matcher (i ∷ is) ++ codes " ip saddr @lan_subnets4")
]

unfoldable pub lan_guard_rule : Main → Str
lan_guard_rule m = codes "\t\t" ++ (lan_source_matcher m ++ codes " jump from_lan\n")

unfoldable pub counter : Main → Str
counter m = if m.nft_counters then codes " counter" else []
