-- ===== src/Provider/Cached.antt =====
-- A downloaded list of networks in the cache, and the loading of it.
use zakop.Prelude.{
  ℕ, zero, suc, ◌+◌, ◌/◌, ◌%◌, ◌≤◌, ◌≡◌, ◌≢◌, ◌↔◌, inl, inr, refl, sym, ap, ◌∙◌, false, List, [],
  ◌∷◌, ◌++◌, some, map, ltb, ◌==◌, arith, Bool-cases, length, length-append,
}
use zakop.Text.{Str, codes, split, cons_head, join}
use zakop.Text.Number.{itoa, digits_onto}
use zakop.Text.Scanner.{
  drop_return, too_long, no_text, scanned, scan_lines, some_too_long, scan_fails,
}
use zakop.Net.{ipv4_string}
use zakop.Net.Parse.Printed.{split-append}
use zakop.Policy.Cidr.{IpNet, v4, other, normalize_ipv4_cidrs}
use zakop.Policy.Blocks.{InNets}
use zakop.Policy.Normalize.{AreNets, InInput, normalize_ipv4_cidrs-InNets}
use zakop.Policy.Parse.{cidr_string}
use zakop.Policy.Printed.{
  Plain, Plain-Without, cidr_string-Plain, trim_space-Plain, strip-Plain, AreCidrs,
  parse_ipv4_cidr-cidr_string, normalize_ipv4_cidrs-AreCidrs,
}
use zakop.Policy.Load.{load_values, load_ipv4_cidrs}
use zakop.Nft.Sets.{cidr_strings}
use zakop.Provider.Lists.{clean_lines, normalize_ip_list, cache_text}
use zakop.Provider.Networks.{InSome, cidr_values_cases}

-- The text of a network is short.
digits_onto-length : (f n : ℕ) (acc : Str) → length (digits_onto f n acc) ≤ f + length acc
unfolding digits_onto
digits_onto-length zero n acc = omega arith
digits_onto-length (suc f) n acc = elim (Bool-cases (ltb n 10)) [
  | inl small ↦ rw small (omega arith)
  | inr large ↦ rw large (omega (arith, digits_onto-length f (n / 10) ((b'0' + n % 10) ∷ acc)))
]

itoa-length : (n : ℕ) → length (itoa n) ≤ n + 1
unfolding itoa
itoa-length n = omega (arith, digits_onto-length (n + 1) n [])

ipv4_string-length : (a : ℕ) → length (ipv4_string a) ≤ 2000
unfolding ipv4_string join
ipv4_string-length a =
    let w = a / 0x100_0000 % 256 in
    let x = a / 0x1_0000 % 256 in
    let y = a / 0x100 % 256 in
    let z = a % 256 in
    let small : (n : ℕ) → length (itoa (n % 256)) ≤ 256 =
      λ n. omega (arith, itoa-length (n % 256)) in
    omega (
      arith,
      length-append (itoa w) (b'.' ∷ (itoa x ++ (b'.' ∷ (itoa y ++ (b'.' ∷ itoa z))))),
      length-append (itoa x) (b'.' ∷ (itoa y ++ (b'.' ∷ itoa z))),
      length-append (itoa y) (b'.' ∷ itoa z),
      small (a / 0x100_0000),
      small (a / 0x1_0000),
      small (a / 0x100),
      small a,
    )

cidr_string-length : (a ones : ℕ) → ones ≤ 32 → length (cidr_string (a, ones)) ≤ 2100
cidr_string-length a ones le = omega (
  arith,
  le,
  length-append (ipv4_string a) (codes "/" ++ itoa ones),
  ipv4_string-length a,
  itoa-length ones,
)

-- Lines that the cache and the scanner leave as they are.
abbrev IsLine : Str → Type 0
IsLine s = Plain s × (length s ≤ 2100) × (no_text s ≡ false)

abbrev AreLines : List Str → Type 0
AreLines [] = Unit
AreLines (s ∷ ss) = IsLine s × AreLines ss

no_text-append : (s : Str) (c : ℕ) (t : Str) → no_text (s ++ (c ∷ t)) ≡ false
no_text-append [] c t = refl
no_text-append (d ∷ s) c t = refl

cidr_strings-AreLines : (ns : List IpNet) → AreCidrs ns → AreLines (cidr_strings ns)
unfolding cidr_strings
cidr_strings-AreLines [] c = tt
cidr_strings-AreLines (v4 a ones ∷ ns) c = (
  (
    cidr_string-Plain a ones,
    cidr_string-length a ones c.0.1,
    no_text-append (ipv4_string a) b'/' (itoa ones),
  ),
  cidr_strings-AreLines ns c.1,
)
cidr_strings-AreLines (other ∷ ns) c = absurd c.0

drop_return-Plain : (s : Str) → Plain s → drop_return s ≡ s
drop_return-Plain [] p = refl
drop_return-Plain (c ∷ []) p =
    let differ : (c == 13) ≡ false = ground (arith, p.0) in rw differ refl
drop_return-Plain (c ∷ d ∷ s) p = ap (◌∷◌ c) (drop_return-Plain (d ∷ s) p.2)

line_fits : (s : Str) → length s ≤ 2100 → too_long s ≡ false
line_fits s le = ground (arith, le)

-- The scanner and its error over one line in front of others.
scanned_first :
    (s : Str) (lines : List Str)
    → IsLine s
    → lines ≢ []
    → (scanned (s ∷ lines) ≡ s ∷ scanned lines) × (some_too_long (s ∷ lines) ≡ some_too_long lines)
unfolding scanned some_too_long
scanned_first s [] v some_line = absurd (some_line refl)
scanned_first s (t ∷ lines) v some_line = rw (line_fits s v.1, drop_return-Plain s v.0) (refl, refl)

cons_head-nonempty : (c : ℕ) (ws : List Str) → cons_head c ws ≢ []
cons_head-nonempty c [] e = absurd (ground (arith, e))
cons_head-nonempty c (w ∷ ws) e = absurd (ground (arith, e))

split-nonempty : (c : ℕ) (s : Str) → split c s ≢ []
unfolding split
split-nonempty c [] e = absurd (ground (arith, e))
split-nonempty c (d ∷ s) e = elim (Bool-cases (d == c)) [
  | inl same ↦ absurd (ground (arith, same, e))
  | inr differ ↦ cons_head-nonempty d (split c s) (sym (rw (differ, split) refl) ∙ e)
]

cached_first :
    (s : Str) (ss : List Str) → IsLine s → cache_text (s ∷ ss) ≡ s ++ (10 ∷ cache_text ss)
unfolding cache_text
cached_first [] ss v = absurd (ground (arith, v.2))
cached_first (c ∷ s) ss v = rw (trim_space-Plain (c ∷ s) v.0) refl

-- The scanner returns the lines of the cache.
scan_lines-cache_text :
    (ss : List Str)
    → AreLines ss
    → (scan_lines (cache_text ss) ≡ ss) × (scan_fails (cache_text ss) ≡ false)
unfolding scan_lines scan_fails scanned some_too_long split cache_text
scan_lines-cache_text [] v = (refl, refl)
scan_lines-cache_text (s ∷ ss) v =
    let rest = scan_lines-cache_text ss v.1 in
    let pieces : split 10 (cache_text (s ∷ ss)) ≡ s ∷ split 10 (cache_text ss) =
      ap (split 10) (cached_first s ss v.0)
      ∙ split-append 10 s (cache_text ss) (Plain-Without 10 s (inl (omega arith)) v.0.0) in
    let first =
      scanned_first s (split 10 (cache_text ss)) v.0 (split-nonempty 10 (cache_text ss)) in
    (ap scanned pieces ∙ first.0 ∙ ap (◌∷◌ s) rest.0, ap some_too_long pieces ∙ first.1 ∙ rest.1)

-- Loading reads the texts of the networks as the networks.
load_values-cidr_strings :
    (ns : List IpNet) → AreCidrs ns → load_values (cidr_strings ns) ≡ some (map some ns)
unfolding load_values cidr_strings
load_values-cidr_strings [] c = refl
load_values-cidr_strings (other ∷ ns) c = absurd c.0
load_values-cidr_strings (v4 a ones ∷ ns) c =
    let plain = cidr_string-Plain a ones in
    rw
      (
        strip-Plain (cidr_string (a, ones)) plain,
        trim_space-Plain (cidr_string (a, ones)) plain,
        no_text-append (ipv4_string a) b'/' (itoa ones),
        parse_ipv4_cidr-cidr_string a ones c.0.0 c.0.1,
        load_values-cidr_strings ns c.1,
        c.0.2,
      )
      refl

AreCidrs-AreNets : (ns : List IpNet) → AreCidrs ns → AreNets (map some ns)
AreCidrs-AreNets [] c = tt
AreCidrs-AreNets (v4 a ones ∷ ns) c = ((c.0.0, c.0.1), AreCidrs-AreNets ns c.1)
AreCidrs-AreNets (other ∷ ns) c = absurd c.0

map-InInput : (x : ℕ) (ns : List IpNet) → InInput x (map some ns) ↔ InNets x ns
map-InInput x [] = ((λ i. i), λ i. i)
map-InInput x (n ∷ ns) =
    let same = map-InInput x ns in
    (
      (λ i. elim i [ inl here ↦ inl here | inr later ↦ inr (same.0 later) ]),
      (λ i. elim i [ inl here ↦ inl here | inr later ↦ inr (same.1 later) ]),
    )

-- Networks that were printed to the cache are loaded with the same addresses.
load_ipv4_cidrs-cidr_strings :
    (ns : List IpNet)
    → AreCidrs ns
    → (nets : List IpNet) × (load_ipv4_cidrs (cache_text (cidr_strings ns)) ≡ some nets)
      × ((x : ℕ) → InNets x nets ↔ InNets x ns)
unfolding load_ipv4_cidrs
load_ipv4_cidrs-cidr_strings ns c =
    let (lines, no_error) = scan_lines-cache_text (cidr_strings ns) (cidr_strings-AreLines ns c) in
    (
      normalize_ipv4_cidrs (map some ns),
      rw (lines, load_values-cidr_strings ns c, load_ipv4_cidrs, no_error) refl,
      λ x. ground (
        arith,
        normalize_ipv4_cidrs-InNets x (map some ns) (AreCidrs-AreNets ns c),
        map-InInput x ns,
      ),
    )

-- If `normalizeIPList` accepts a downloaded list, `WriteCache` writes the texts that it returns to
-- a file that `LoadIPv4CIDRsFile` reads without an error, and the networks that are loaded hold
-- exactly the addresses of the IPv4 networks among the values of the download.
pub load_ipv4_cidrs-cache_text :
    (data' : Str) (items : List Str)
    → normalize_ip_list data' ≡ some items
    → (nets : List IpNet) × (load_ipv4_cidrs (cache_text items) ≡ some nets)
      × ((x : ℕ) → InNets x nets ↔ InSome x (clean_lines data'))
unfolding normalize_ip_list
load_ipv4_cidrs-cache_text data' items e = elim (cidr_values_cases (clean_lines data')) [
  | inl (fails, bad) ↦ absurd (ground (arith, fails, e))
  | inr (no_bad, values, works, are, same) ↦
      let written : items ≡ cidr_strings (normalize_ipv4_cidrs values) = ground (arith, works, e) in
      let (nets, loaded, kept) =
        load_ipv4_cidrs-cidr_strings (normalize_ipv4_cidrs values)
          (normalize_ipv4_cidrs-AreCidrs values are) in
      (
        nets,
        rw written loaded,
        λ x. ground (arith, kept x, normalize_ipv4_cidrs-InNets x values are, same x),
      )
]
