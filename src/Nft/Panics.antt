-- ===== src/Nft/Panics.antt =====
-- When `MustIPv4CIDRs` panics.
use zakop.Prelude.{
  ◌≡◌, ◌⊎◌, inl, inr, refl, Bool, true, false, not, ◌&&◌, ◌||◌, List, [], ◌∷◌, ◌++◌, Option, none,
  some, arith, if◌then◌else◌, Option-cases,
}
use zakop.Text.{Str, codes, str_eq, contains, has_prefix, cut, split}
use zakop.Text.Number.{number, number_from, digit_value}
use zakop.Net.Parse.{parse_ip, parse_cidr}
use zakop.Policy.Cidr.{IpNet, v4, normalize_ipv4_cidrs}
use zakop.Policy.Parse.{parse_ipv4_cidr}
use zakop.Config.Types.{Main}
use zakop.Config.Validate.Main.{is_none}
use zakop.Config.Validate.Fresh.{Each}
use zakop.Nft.Sets.{always_reserved, parse_all, must_ipv4_cidrs, reserved_values, reserved_cidrs}

-- Every text is one that `ParseIPv4CIDR` reads.
abbrev pub AllCidrs : List Str → Type 0
AllCidrs values = Each (λ v. is_none (parse_ipv4_cidr v) ≡ false) values

parse_all_cases :
    (values : List Str)
    → (AllCidrs values × ((nets : List (Option IpNet)) × (parse_all values ≡ some nets)))
      ⊎ ((¬ AllCidrs values) × (parse_all values ≡ none))
unfolding parse_all
parse_all_cases [] = inl (tt, ([], refl))
parse_all_cases (v ∷ vs) = elim (Option-cases (parse_ipv4_cidr v)) [
  | inl bad ↦ inr ((λ all. absurd (ground (arith, bad, all.0))), rw (bad, parse_all) refl)
  | inr ((a, ones), good) ↦ elim (parse_all_cases vs) [
    | inl (all, (nets, e)) ↦
        inl ((rw good refl, all), (some (v4 a ones) ∷ nets, rw (good, e, parse_all) refl))
    | inr (some_bad, e) ↦ inr ((λ all. some_bad all.1), rw (good, e, parse_all) refl)
  ]
]

-- It panics exactly if one of the texts is not a network.
pub must_ipv4_cidrs_cases :
    (values : List Str)
    → (AllCidrs values × ((nets : List IpNet) × (must_ipv4_cidrs values ≡ some nets)))
      ⊎ ((¬ AllCidrs values) × (must_ipv4_cidrs values ≡ none))
unfolding must_ipv4_cidrs
must_ipv4_cidrs_cases values = elim (parse_all_cases values) [
  | inl (all, (nets, e)) ↦ inl (all, (normalize_ipv4_cidrs nets, rw (e, must_ipv4_cidrs) refl))
  | inr (some_bad, e) ↦ inr (some_bad, rw (e, must_ipv4_cidrs) refl)
]

all_parse : List Str → Bool
all_parse [] = true
all_parse (v ∷ vs) = not (is_none (parse_ipv4_cidr v)) && all_parse vs

all_parse→AllCidrs : (values : List Str) → all_parse values ≡ true → AllCidrs values
unfolding all_parse
all_parse→AllCidrs [] e = tt
all_parse→AllCidrs (v ∷ vs) e = (ground (arith, e), all_parse→AllCidrs vs (ground (arith, e)))

reserved_texts :
    (fakeip : Bool)
    → AllCidrs (always_reserved ++ (if fakeip then codes "198.18.0.0/15" ∷ [] else []))
unfolding all_parse parse_ipv4_cidr parse_cidr parse_ip contains has_prefix cut split number
    number_from digit_value
reserved_texts true = all_parse→AllCidrs (always_reserved ++ (codes "198.18.0.0/15" ∷ [])) refl
reserved_texts false = all_parse→AllCidrs always_reserved refl

-- The reserved networks are networks.
pub reserved_cidrs-some : (m : Main) → (nets : List IpNet) × (reserved_cidrs m ≡ some nets)
unfolding reserved_cidrs reserved_values
reserved_cidrs-some m = elim (must_ipv4_cidrs_cases (reserved_values m)) [
  | inl (_, found) ↦ found
  | inr (some_bad, _) ↦ absurd (
      some_bad (
        reserved_texts
          (not m.fakeip_enabled || not (str_eq m.fakeip_range (codes "198.18.0.0/15")))))
]
