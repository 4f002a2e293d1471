-- ===== src/Policy/Cidr.antt =====
-- internal/policy/cidr.go: `NormalizeIPv4CIDRs`, `rangeToCIDRs` and what they call.
use zakop.Prelude.{
  ℕ, zero, suc, ◌+◌, ◌-◌, ◌*◌, ◌/◌, ◌%◌, ◌^◌, Bool, List, [], ◌∷◌, ◌++◌, Option, none, some, ltb,
  leb, ◌==◌, if◌then◌else◌,
}

-- A `*net.IPNet` as the code reads it by `To4`, `Mask.Size` and `IP.Mask`: an IPv4 address with a
-- mask of leading ones, or a network that is not of this form.
pub data IpNet : Type 0 where
  v4 : ℕ → ℕ → IpNet
  other : IpNet

-- `IPv4CIDR`, both ends included.
pub record Ipv4Cidr : Type 0 where
  pub start : ℕ
  pub end : ℕ

-- `ip4.Mask(ipnet.Mask)`: the low `32 - ones` bits are cleared.
abbrev pub masked : ℕ → ℕ → ℕ
masked a ones = a / 2 ^ (32 - ones) * 2 ^ (32 - ones)

-- The body of the first loop for one network; `none` is `continue`.
unfoldable pub net_range : Option IpNet → Option Ipv4Cidr
net_range none = none
net_range (some other) = none
net_range (some (v4 a ones)) =
    let start = masked a ones in
    let size = 2 ^ (32 - ones) in
    some (record { start = start; end = (start + (size - 1) % 2 ^ 32) % 2 ^ 32 })

unfoldable pub ranges : List (Option IpNet) → List Ipv4Cidr
ranges [] = []
ranges (n ∷ ns) = let rest = ranges ns in elim (net_range n) [ none ↦ rest | some r ↦ r ∷ rest ]

-- The order of `sort.Slice`. Ranges that it does not separate are equal, so the order in which an
-- unstable sort leaves them shows nowhere.
unfoldable pub before : Ipv4Cidr → Ipv4Cidr → Bool
before a b = if a.start == b.start then ltb a.end b.end else ltb a.start b.start

unfoldable pub insert_range : Ipv4Cidr → List Ipv4Cidr → List Ipv4Cidr
unfolding before
insert_range r [] = r ∷ []
insert_range r (x ∷ xs) =
    let later = x ∷ insert_range r xs in if before x r then later else r ∷ x ∷ xs

unfoldable pub sort_ranges : List Ipv4Cidr → List Ipv4Cidr
unfolding insert_range
sort_ranges [] = []
sort_ranges (r ∷ rs) = insert_range r (sort_ranges rs)

-- The body of the merging loop at the last range of `merged`: the range is absorbed, or none is.
unfoldable pub absorb : Ipv4Cidr → Ipv4Cidr → Option Ipv4Cidr
absorb last r =
    if leb r.start (last.end + 1)
    then some (if ltb last.end r.end then record last { end = r.end } else last)
    else none

-- The merging loop from the state in which `last` is the last range of `merged`: what follows.
unfoldable pub merge_from : Ipv4Cidr → List Ipv4Cidr → List Ipv4Cidr
unfolding absorb
merge_from last [] = last ∷ []
merge_from last (r ∷ rs) = elim (absorb last r) [
  | some wider ↦ merge_from wider rs
  | none ↦ last ∷ merge_from r rs
]

unfoldable pub merge_ranges : List Ipv4Cidr → List Ipv4Cidr
unfolding merge_from
merge_ranges [] = []
merge_ranges (r ∷ rs) = merge_from r rs

-- `bits.TrailingZeros32` of a number that is not zero, and `bits.Len64`. The first argument bounds
-- the width.
unfoldable pub trailing_zeros : ℕ → ℕ → ℕ
trailing_zeros zero n = 0
trailing_zeros (suc f) n =
    let more = suc (trailing_zeros f (n / 2)) in if n % 2 == 0 then more else 0

unfoldable pub bit_len : ℕ → ℕ → ℕ
bit_len zero n = 0
bit_len (suc f) n = let more = suc (bit_len f (n / 2)) in if n == 0 then 0 else more

-- `for blockSize > remaining { blockSize >>= 1; tz-- }`, from `blockSize = 1 << tz`.
unfoldable pub shrink : ℕ → ℕ → ℕ → ℕ
shrink zero block remaining = block
shrink (suc tz) block remaining =
    let half = shrink tz (block / 2) remaining in if ltb remaining block then half else block

-- The first block that `rangeToCIDRs` cuts off a range that starts at `start`.
unfoldable pub block_size : ℕ → ℕ → ℕ
unfolding trailing_zeros shrink
block_size start remaining =
    let tz = if start == 0 then 32 else trailing_zeros 32 start in shrink tz (2 ^ tz) remaining

-- `rangeToCIDRs`. The rounds are bounded by the addresses of the range, since each takes one.
unfoldable pub cut_range : ℕ → ℕ → ℕ → List IpNet
cut_range zero start end = []
cut_range (suc f) start end =
    let remaining = end + 1 - start in
    let block = block_size start remaining in
    let net = v4 start (32 - (bit_len 64 block - 1)) in
    let rest = cut_range f ((start + block % 2 ^ 32) % 2 ^ 32) end in
    if leb start end then (if leb remaining block then net ∷ [] else net ∷ rest) else []

unfoldable pub range_to_cidrs : ℕ → ℕ → List IpNet
unfolding cut_range block_size bit_len
range_to_cidrs start end = cut_range (end + 1 - start) start end

unfoldable pub cidrs_of : List Ipv4Cidr → List IpNet
unfolding range_to_cidrs
cidrs_of [] = []
cidrs_of (r ∷ rs) = range_to_cidrs r.start r.end ++ cidrs_of rs

-- `NormalizeIPv4CIDRs`; the early returns on an empty list give what the loops give.
unfoldable pub normalize_ipv4_cidrs : List (Option IpNet) → List IpNet
unfolding ranges net_range sort_ranges merge_ranges cidrs_of
normalize_ipv4_cidrs input = cidrs_of (merge_ranges (sort_ranges (ranges input)))
