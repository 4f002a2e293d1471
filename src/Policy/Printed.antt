-- ===== src/Policy/Printed.antt =====
-- The texts of networks, and the parser that reads them.
use native.Mathlib.Nat.{mul-div_left}
use zakop.Prelude.{
  ℕ, ◌+◌, ◌-◌, ◌*◌, ◌/◌, ◌%◌, ◌^◌, ◌<◌, ◌≤◌, ◌≡◌, ◌⊎◌, inl, refl, ap, false, List, [], ◌∷◌, ◌++◌,
  Option, none, some, arith,
}
use zakop.Text.{Str, codes, is_space, trim_left, trim_right, trim_space, cut, join}
use zakop.Text.Match.{contains-append}
use zakop.Text.Number.{itoa}
use zakop.Text.Decimal.{AreDigits, itoa-AreDigits}
use zakop.Net.{ipv4_string}
use zakop.Net.Parse.Printed.{Without, parse_cidr-ipv4_string}
use zakop.Policy.Cidr.{
  IpNet, v4, other, masked, range_to_cidrs, cidrs_of, normalize_ipv4_cidrs, merge_ranges,
  sort_ranges, ranges, Ipv4Cidr,
}
use zakop.Policy.Merge.{Separated}
use zakop.Policy.Normalize.{AreNets, merged_lem}
use zakop.Policy.Blocks.{Tiles, last, more, pow_pos, range_to_cidrs-Tiles}
use zakop.Policy.Parse.{parse_ipv4_cidr, ipv4_only, cidr_string, strip_provider_comment}

-- Digits, dots and slashes.
abbrev pub Plain : Str → Type 0
Plain [] = Unit
Plain (c ∷ s) = (46 ≤ c) × (c ≤ 57) × Plain s

Plain-append : (s t : Str) → Plain s → Plain t → Plain (s ++ t)
Plain-append [] t p q = q
Plain-append (c ∷ s) t p q = (p.0, p.1, Plain-append s t p.2 q)

digits-Plain : (s : Str) → AreDigits s → Plain s
digits-Plain [] d = tt
digits-Plain (c ∷ s) d = (omega (arith, d.0), d.1, digits-Plain s d.2)

itoa-Plain : (n : ℕ) → Plain (itoa n)
itoa-Plain n = digits-Plain (itoa n) (itoa-AreDigits n).0

pub cidr_string-Plain : (a ones : ℕ) → Plain (cidr_string (a, ones))
unfolding ipv4_string join
cidr_string-Plain a ones =
    let dotted : (n : ℕ) (t : Str) → Plain t → Plain (itoa n ++ (b'.' ∷ t)) =
      λ n t p. Plain-append (itoa n) (b'.' ∷ t) (itoa-Plain n) (omega arith, omega arith, p) in
    Plain-append (ipv4_string a) (b'/' ∷ itoa ones)
      (dotted (a / 0x100_0000 % 256) _
        (dotted (a / 0x1_0000 % 256) _ (dotted (a / 0x100 % 256) _ (itoa-Plain (a % 256)))))
      (omega arith, omega arith, itoa-Plain ones)

pub Plain-Without : (c : ℕ) (s : Str) → (c < 46) ⊎ (57 < c) → Plain s → Without c s
Plain-Without c [] out p = tt
Plain-Without c (d ∷ s) out p = (ground (arith, out, p.0, p.1), Plain-Without c s out p.2)

plain_rune : (c : ℕ) → 46 ≤ c → c ≤ 57 → is_space c ≡ false
unfolding is_space
plain_rune c low high = ground (arith, low, high)

trim_right-Plain : (s : Str) → Plain s → trim_right is_space s ≡ s
unfolding trim_right
trim_right-Plain [] p = refl
trim_right-Plain (c ∷ s) p = rw (plain_rune c p.0 p.1, trim_right-Plain s p.2) refl

pub trim_space-Plain : (s : Str) → Plain s → trim_space s ≡ s
unfolding trim_space trim_left
trim_space-Plain [] p = trim_right-Plain [] p
trim_space-Plain (c ∷ s) p = rw (plain_rune c p.0 p.1) (trim_right-Plain (c ∷ s) p)

cut-Without : (c : ℕ) (s : Str) → Without c s → cut c s ≡ none
unfolding cut
cut-Without c [] w = refl
cut-Without c (d ∷ s) w = rw (w.0, cut-Without c s w.1) refl

pub strip-Plain : (s : Str) → Plain s → strip_provider_comment s ≡ s
unfolding strip_provider_comment
strip-Plain s p =
    rw (cut-Without b'#' s (Plain-Without b'#' s (inl (omega arith)) p), strip_provider_comment)
      refl

-- `ParseIPv4CIDR` reads the text of a network as the network.
pub parse_ipv4_cidr-cidr_string :
    (a ones : ℕ)
    → a < 0x1_0000_0000
    → ones ≤ 32
    → parse_ipv4_cidr (cidr_string (a, ones)) ≡ some (masked a ones, ones)
unfolding parse_ipv4_cidr
parse_ipv4_cidr-cidr_string a ones less le =
    rw
      (
        contains-append (ipv4_string a) (codes "/") (itoa ones),
        parse_cidr-ipv4_string a ones less le,
        ipv4_only,
        parse_ipv4_cidr,
      )
      refl

-- Networks of IPv4 with no host bits.
abbrev pub IsCidr : IpNet → Type 0
IsCidr (v4 a ones) = (a < 0x1_0000_0000) × (ones ≤ 32) × (masked a ones ≡ a)
IsCidr other = ⊥

abbrev pub AreCidrs : List IpNet → Type 0
AreCidrs [] = Unit
AreCidrs (n ∷ ns) = IsCidr n × AreCidrs ns

AreCidrs-append : (ns ms : List IpNet) → AreCidrs ns → AreCidrs ms → AreCidrs (ns ++ ms)
AreCidrs-append [] ms u v = v
AreCidrs-append (n ∷ ns) ms u v = (u.0, AreCidrs-append ns ms u.1 v)

aligned-masked : (k q lo ones : ℕ) → k ≤ 32 → ones ≡ 32 - k → lo ≡ q * 2 ^ k → masked lo ones ≡ lo
aligned-masked k q lo ones small e a =
    let host : 32 - ones ≡ k = omega arith in
    rw (host, a) (ap (λ n. n * 2 ^ k) (mul-div_left q (pow_pos k)))

Tiles-AreCidrs : {lo hi : ℕ} {ns : List IpNet} → hi < 0x1_0000_0000 → Tiles lo hi ns → AreCidrs ns
Tiles-AreCidrs top (last {lo} {hi} {ones} k q small e a end) =
    let p = pow_pos k in
    ((omega (arith, p), omega (arith, e), aligned-masked k q lo ones small e a), tt)
Tiles-AreCidrs top (more {lo} {hi} {ones} k q small e a step room rest) =
    let p = pow_pos k in
    (
      (omega (arith, p), omega (arith, e), aligned-masked k q lo ones small e a),
      Tiles-AreCidrs top rest,
    )

cidrs_of-AreCidrs : (lo : ℕ) (rs : List Ipv4Cidr) → Separated lo rs → AreCidrs (cidrs_of rs)
unfolding cidrs_of
cidrs_of-AreCidrs lo [] s = tt
cidrs_of-AreCidrs lo (r ∷ rs) s =
    AreCidrs-append (range_to_cidrs r.start r.end) (cidrs_of rs)
      (Tiles-AreCidrs s.1.1 (range_to_cidrs-Tiles r.start r.end s.1.0 s.1.1))
      (cidrs_of-AreCidrs (r.end + 2) rs s.2)

-- `NormalizeIPv4CIDRs` returns such networks.
pub normalize_ipv4_cidrs-AreCidrs :
    (ns : List (Option IpNet)) → AreNets ns → AreCidrs (normalize_ipv4_cidrs ns)
unfolding normalize_ipv4_cidrs
normalize_ipv4_cidrs-AreCidrs ns v =
    cidrs_of-AreCidrs 0 (merge_ranges (sort_ranges (ranges ns))) (merged_lem 0 ns v).0
