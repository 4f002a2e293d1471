-- ===== src/Provider/Networks.antt =====
-- The networks of a downloaded list.
use native.Mathlib.Nat.{div-mul-le_self}
use zakop.Prelude.{
  ℕ, ◌*◌, ◌/◌, ◌^◌, ◌-◌, ◌<◌, ◌≡◌, ◌⊎◌, ◌↔◌, inl, inr, refl, false, List, [], ◌∷◌, ◌++◌, Option,
  none, some, arith, if◌then◌else◌, Bool-cases, Option-cases,
}
use zakop.Text.{Str, codes, contains}
use zakop.Net.Parse.{parse_cidr}
use zakop.Net.Parse.Bounds.{AreIpv4, parse_cidr-AreIpv4}
use zakop.Policy.Cidr.{IpNet, v4, other, normalize_ipv4_cidrs}
use zakop.Policy.Blocks.{InNet, InNets}
use zakop.Policy.Normalize.{IsNet, AreNets, InInput, normalize_ipv4_cidrs-InNets}
use zakop.Policy.Parse.{parse_ipv4_cidr, ipv4_only}
use zakop.Nft.Sets.{cidr_strings}
use zakop.Provider.Lists.{clean_lines, cidr_values, normalize_ip_list}

masked-bound : (a k : ℕ) → a < 0x1_0000_0000 → a / 2 ^ k * 2 ^ k < 0x1_0000_0000
masked-bound a k e = omega (arith, e, div-mul-le_self a (2 ^ k))

-- What `ParseIPv4CIDR` reads is a network of IPv4.
pub parse_ipv4_cidr-IsNet :
    (s : Str) (a ones : ℕ) → parse_ipv4_cidr s ≡ some (a, ones) → IsNet (v4 a ones)
unfolding parse_ipv4_cidr
parse_ipv4_cidr-IsNet s a ones e =
    let text = if contains s (codes "/") then s else s ++ codes "/32" in
    of_result (parse_cidr text) (parse_cidr-AreIpv4 text) e
  where
    of_result :
        (r : Option (Option ℕ × IpNet))
        → ((ip : Option ℕ) (net : IpNet) → r ≡ some (ip, net) → AreIpv4 ip net)
        → ipv4_only r ≡ some (a, ones)
        → IsNet (v4 a ones)
    of_result none f g = absurd (ground (arith, g))
    of_result (some (none, net)) f g = absurd (ground (arith, g))
    of_result (some (some x, other)) f g = absurd (ground (arith, g))
    of_result (some (some x, v4 b n)) f g =
        let (low, short) = f (some x) (v4 b n) refl in
        ground (arith, g, masked-bound x (32 - n) low, short)

-- A text that is neither a network nor in the notation of IPv6.
abbrev pub IsBad : Str → Type 0
IsBad v = (parse_ipv4_cidr v ≡ none) × (contains v (codes ":") ≡ false)

abbrev pub SomeBad : List Str → Type 0
SomeBad [] = ⊥
SomeBad (v ∷ vs) = IsBad v ⊎ SomeBad vs

-- The address is in a network that one of the texts spells.
abbrev pub InParsed : ℕ → Option (ℕ × ℕ) → Type 0
InParsed x none = ⊥
InParsed x (some (a, ones)) = InNet x (v4 a ones)

abbrev pub InSome : ℕ → List Str → Type 0
InSome x [] = ⊥
InSome x (v ∷ vs) = InParsed x (parse_ipv4_cidr v) ⊎ InSome x vs

pub cidr_values_cases :
    (vs : List Str)
    → ((cidr_values vs ≡ none) × SomeBad vs)
      ⊎ ((¬ SomeBad vs)
          × (nets : List (Option IpNet)) × (cidr_values vs ≡ some nets)
          × AreNets nets
          × ((x : ℕ) → InInput x nets ↔ InSome x vs))
unfolding cidr_values
cidr_values_cases [] = inr ((λ b. b), [], refl, tt, λ x. ((λ a. a), (λ a. a)))
cidr_values_cases (v ∷ vs) = elim (Option-cases (parse_ipv4_cidr v)) [
  | inr ((a, ones), good) ↦ elim (cidr_values_cases vs) [
    | inl (fails, bad) ↦ inl (rw (good, fails, cidr_values) refl, inr bad)
    | inr (no_bad, nets, works, are, same) ↦ inr (
      (λ b. elim b [ inl bad ↦ absurd (ground (arith, good, bad.0)) | inr later ↦ no_bad later ]),
      some (v4 a ones) ∷ nets,
      rw (good, works, cidr_values) refl,
      (parse_ipv4_cidr-IsNet v a ones good, are),
      λ x. rw good (
        (λ i. elim i [ inl here ↦ inl here | inr later ↦ inr ((same x).0 later) ]),
        (λ i. elim i [ inl here ↦ inl here | inr later ↦ inr ((same x).1 later) ]),
      ),
    )
  ]
  | inl bad ↦ elim (Bool-cases (contains v (codes ":"))) [
    | inr plain ↦ inl (rw (bad, plain, cidr_values) refl, inl (bad, plain))
    | inl colon ↦ elim (cidr_values_cases vs) [
      | inl (fails, later) ↦ inl (rw (bad, colon, cidr_values) fails, inr later)
      | inr (no_bad, nets, works, are, same) ↦ inr (
        (λ b. elim b [
          | inl (_, plain) ↦ absurd (ground (arith, colon, plain))
          | inr later ↦ no_bad later
        ]),
        nets,
        rw (bad, colon, cidr_values) works,
        are,
        λ x. rw bad (
          (λ i. inr ((same x).0 i)),
          (λ i. elim i [ inl nowhere ↦ absurd nowhere | inr later ↦ (same x).1 later ]),
        ),
      )
    ]
  ]
]

-- `normalizeIPList` fails exactly if a value of the list is not a network of IPv4 and has no colon,
-- which would make it one of IPv6. Otherwise it returns the texts of networks that hold exactly the
-- addresses of the IPv4 networks among the values.
pub normalize_ip_list_lem :
    (data' : Str)
    → ((normalize_ip_list data' ≡ none) × SomeBad (clean_lines data'))
      ⊎ ((¬ SomeBad (clean_lines data'))
          × (nets : List IpNet) × (normalize_ip_list data' ≡ some (cidr_strings nets))
          × ((x : ℕ) → InNets x nets ↔ InSome x (clean_lines data')))
unfolding normalize_ip_list
normalize_ip_list_lem data' = elim (cidr_values_cases (clean_lines data')) [
  | inl (fails, bad) ↦ inl (rw (fails, normalize_ip_list) refl, bad)
  | inr (no_bad, nets, works, are, same) ↦ inr (
    no_bad,
    normalize_ipv4_cidrs nets,
    rw (works, normalize_ip_list) refl,
    λ x. ground (arith, normalize_ipv4_cidrs-InNets x nets are, same x),
  )
]
