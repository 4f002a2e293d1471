-- ===== src/Policy/Normalize.antt =====
-- `NormalizeIPv4CIDRs` keeps the addresses, and its result depends on nothing else.
use native.Mathlib.Nat.{pow-suc, div-lt_iff_lt-mul}
use zakop.Prelude.{
  ℕ, zero, suc, ◌+◌, ◌-◌, ◌*◌, ◌/◌, ◌%◌, ◌^◌, ◌≤◌, ◌<◌, ◌≡◌, ◌↔◌, ◌⊎◌, refl, ap, ◌∙◌, List, [], ◌∷◌,
  ◌++◌, Option, none, some, arith,
}
use zakop.Policy.Cidr.{
  IpNet, v4, other, Ipv4Cidr, net_range, ranges, sort_ranges, merge_ranges, cidrs_of,
  range_to_cidrs, normalize_ipv4_cidrs,
}
use zakop.Policy.Blocks.{InNet, InNets, Tiles-InNets, range_to_cidrs-Tiles, div-eq_iff, pow_pos}
use zakop.Policy.Merge.{
  InRange, InRanges, IsRange, AreRanges, Separated, sort_ranges-SortedFrom, sort_ranges-InRanges,
  merge_ranges-Separated, Separated-ext,
}

-- An address and a mask length as `ParseIPv4CIDR` makes them.
abbrev pub IsNet : IpNet → Type 0
IsNet (v4 a ones) = (a < 0x1_0000_0000) × (ones ≤ 32)
IsNet other = Unit

abbrev pub AreNets : List (Option IpNet) → Type 0
AreNets [] = Unit
AreNets (none ∷ ns) = AreNets ns
AreNets (some n ∷ ns) = IsNet n × AreNets ns

-- The addresses of the input; a nil network has none.
abbrev pub InInput : ℕ → List (Option IpNet) → Type 0
InInput x [] = ⊥
InInput x (none ∷ ns) = InInput x ns
InInput x (some n ∷ ns) = InNet x n ⊎ InInput x ns

pow-add : (j k : ℕ) → 2 ^ (j + k) ≡ 2 ^ j * 2 ^ k
pow-add zero k = grind arith
pow-add (suc j) k =
    let e : suc j + k ≡ suc (j + k) = omega arith in
    rw e (
      omega (
        arith,
        pow-suc 2 (j + k),
        pow-suc 2 j,
        ap (λ (t : ℕ). t * 2) (pow-add j k),
        ap (λ (t : ℕ). t * 2 ^ k) (pow-suc 2 j),
      ))

-- The top of a network does not pass the last address.
masked-add-le : (a k : ℕ) → a < 0x1_0000_0000 → k ≤ 32 → a / 2 ^ k * 2 ^ k + 2 ^ k ≤ 0x1_0000_0000
masked-add-le a k h small =
    let top : 2 ^ 32 ≡ 2 ^ (32 - k) * 2 ^ k =
      let e : 32 ≡ 32 - k + k = omega arith in ap (λ (t : ℕ). 2 ^ t) e ∙ pow-add (32 - k) k in
    let below : a / 2 ^ k < 2 ^ (32 - k) = (div-lt_iff_lt-mul (pow_pos k)).1 (omega (arith, top)) in
    grind arith

net_range-InRange :
    (x a ones : ℕ)
    → IsNet (v4 a ones)
    → (r : Ipv4Cidr) × (net_range (some (v4 a ones)) ≡ some r)
      × IsRange r
      × (InRange x r ↔ InNet x (v4 a ones))
unfolding net_range
net_range-InRange x a ones v =
    let k = 32 - ones in
    let p = pow_pos k in
    let top = masked-add-le a k v.0 (omega arith) in
    let start = a / 2 ^ k * 2 ^ k in
    let at_end : (start + (2 ^ k - 1) % 2 ^ 32) % 2 ^ 32 ≡ start + 2 ^ k - 1 = omega arith in
    let b = div-eq_iff x (a / 2 ^ k) (2 ^ k) p in
    (
      record { start = start; end = start + 2 ^ k - 1 },
      rw at_end,
      omega arith,
      ((λ m. b.1 (omega arith)), λ m. let h = b.0 m in omega arith),
    )

net_range-nil : net_range none ≡ none
unfolding net_range
net_range-nil = refl

net_range-other : net_range (some other) ≡ none
unfolding net_range
net_range-other = refl

ranges-skip :
    (n : Option IpNet) (ns : List (Option IpNet)) → net_range n ≡ none → ranges (n ∷ ns) ≡ ranges ns
unfolding ranges
ranges-skip n ns e = rw (e, ranges)

ranges-keep :
    (n : Option IpNet) (ns : List (Option IpNet)) (r : Ipv4Cidr)
    → net_range n ≡ some r
    → ranges (n ∷ ns) ≡ r ∷ ranges ns
unfolding ranges
ranges-keep n ns r e = rw (e, ranges)

ranges-InRanges :
    (x : ℕ) (ns : List (Option IpNet))
    → AreNets ns
    → AreRanges (ranges ns) × (InRanges x (ranges ns) ↔ InInput x ns)
unfolding ranges
ranges-InRanges x [] v = (tt, ground arith)
ranges-InRanges x (none ∷ ns) v = rw (ranges-skip none ns net_range-nil) (ranges-InRanges x ns v)
ranges-InRanges x (some other ∷ ns) v =
    let ih = ranges-InRanges x ns v.1 in
    rw (ranges-skip (some other) ns net_range-other) (ih.0, ground arith)
ranges-InRanges x (some (v4 a ones) ∷ ns) v =
    let (r, e, w, m) = net_range-InRange x a ones v.0 in
    let ih = ranges-InRanges x ns v.1 in
    rw (ranges-keep (some (v4 a ones)) ns r e) ((w, ih.0), ground arith)

InNets-append : (x : ℕ) (ns ms : List IpNet) → InNets x (ns ++ ms) ↔ (InNets x ns ⊎ InNets x ms)
InNets-append x [] ms = ground arith
InNets-append x (n ∷ ns) ms = ground (arith, InNets-append x ns ms)

cidrs_of-InNets :
    (x lo : ℕ) (rs : List Ipv4Cidr) → Separated lo rs → InNets x (cidrs_of rs) ↔ InRanges x rs
unfolding cidrs_of
cidrs_of-InNets x lo [] s = ground arith
cidrs_of-InNets x lo (r ∷ rs) s =
    let t = Tiles-InNets x (range_to_cidrs-Tiles r.start r.end s.1.0 s.1.1) in
    ground (
      arith,
      InNets-append x (range_to_cidrs r.start r.end) (cidrs_of rs),
      t,
      cidrs_of-InNets x (r.end + 2) rs s.2,
    )

-- What the merged ranges of an input are.
pub merged_lem :
    (x : ℕ) (ns : List (Option IpNet))
    → AreNets ns
    → Separated 0 (merge_ranges (sort_ranges (ranges ns)))
      × (InRanges x (merge_ranges (sort_ranges (ranges ns))) ↔ InInput x ns)
merged_lem x ns v =
    let r = ranges-InRanges x ns v in
    let m =
      merge_ranges-Separated x (sort_ranges (ranges ns)) (sort_ranges-SortedFrom (ranges ns) r.0) in
    (m.0, ground (arith, m, r, sort_ranges-InRanges x (ranges ns)))

-- An address is in one of the blocks that `NormalizeIPv4CIDRs` returns exactly when it is in one
-- of the networks of the input. The networks are IPv4 addresses with masks of at most 32 bits, or
-- nil, or not IPv4.
pub normalize_ipv4_cidrs-InNets :
    (x : ℕ) (ns : List (Option IpNet))
    → AreNets ns
    → InNets x (normalize_ipv4_cidrs ns) ↔ InInput x ns
unfolding normalize_ipv4_cidrs
normalize_ipv4_cidrs-InNets x ns v =
    let m = merged_lem x ns v in
    ground (arith, m, cidrs_of-InNets x 0 (merge_ranges (sort_ranges (ranges ns))) m.0)

-- Two inputs that hold the same addresses are normalised to the same list of blocks, whatever the
-- order, the overlaps and the sizes of their networks are.
pub normalize_ipv4_cidrs_ext :
    (ns ms : List (Option IpNet))
    → AreNets ns
    → AreNets ms
    → ((x : ℕ) → InInput x ns ↔ InInput x ms)
    → normalize_ipv4_cidrs ns ≡ normalize_ipv4_cidrs ms
unfolding normalize_ipv4_cidrs
normalize_ipv4_cidrs_ext ns ms v w same = ap cidrs_of (
    Separated-ext 0 (merge_ranges (sort_ranges (ranges ns)))
      (merge_ranges (sort_ranges (ranges ms))) (merged_lem 0 ns v).0 (merged_lem 0 ms w).0
      (λ x. ground (arith, merged_lem x ns v, merged_lem x ms w, same x)))
