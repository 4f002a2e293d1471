-- ===== src/Policy/Blocks.antt =====
-- `rangeToCIDRs` tiles its range: aligned blocks, one behind the other, and nothing left over.
use native.Mathlib.Nat.{pow-suc, one-le-pow, div-add-mod, mod-lt, mul-div_left}
use zakop.Prelude.{
  ℕ, zero, suc, ◌+◌, ◌-◌, ◌*◌, ◌/◌, ◌%◌, ◌^◌, ◌≤◌, ◌<◌, ◌≡◌, ◌↔◌, ◌⊎◌, inl, inr, refl, ap, true,
  List, [], ◌∷◌, arith, ltb, leb, ◌==◌, Bool-cases,
}
use zakop.Policy.Cidr.{
  IpNet, v4, other, trailing_zeros, bit_len, shrink, block_size, cut_range, range_to_cidrs,
}

-- `net.IPNet.Contains`: the address agrees with the network on the bits of the mask.
abbrev pub InNet : ℕ → IpNet → Type 0
InNet x (v4 a ones) = x / 2 ^ (32 - ones) ≡ a / 2 ^ (32 - ones)
InNet x other = ⊥

abbrev pub InNets : ℕ → List IpNet → Type 0
InNets x [] = ⊥
InNets x (n ∷ ns) = InNet x n ⊎ InNets x ns

-- `nets` are CIDR blocks with no host bits, the first at `lo`, each where the one in front of it
-- ends, and the last ends at `hi`.
pub data Tiles : ℕ → ℕ → List IpNet → Type 0 where
  last :
      {lo hi ones : ℕ} (k q : ℕ)
      → k ≤ 32
      → ones ≡ 32 - k
      → lo ≡ q * 2 ^ k
      → lo + 2 ^ k ≡ suc hi
      → Tiles lo hi (v4 lo ones ∷ [])
  more :
      {lo hi ones next : ℕ} {ns : List IpNet} (k q : ℕ)
      → k ≤ 32
      → ones ≡ 32 - k
      → lo ≡ q * 2 ^ k
      → next ≡ lo + 2 ^ k
      → next ≤ hi
      → Tiles next hi ns
      → Tiles lo hi (v4 lo ones ∷ ns)

pub pow_pos : (k : ℕ) → 0 < 2 ^ k
pow_pos k = one-le-pow k 2 (omega arith)

pub pow_double : (k : ℕ) → 2 ^ suc k ≡ 2 * 2 ^ k
pow_double k = omega (arith, pow-suc 2 k)

trailing_zeros_divide : (f n : ℕ) → (q : ℕ) × (n ≡ q * 2 ^ trailing_zeros f n)
unfolding trailing_zeros
trailing_zeros_divide zero n = (n, omega arith)
trailing_zeros_divide (suc f) n = elim (Bool-cases (n % 2 == 0)) [
  | inl even ↦
      let (q, e) = trailing_zeros_divide f (n / 2) in
      (
        q,
        rw even (
            ground (
              arith,
              pow_double (trailing_zeros f (n / 2)),
              ap (λ (t : ℕ). q * t) (pow_double (trailing_zeros f (n / 2))),
            )),
      )
  | inr odd ↦ (n, rw odd (omega arith))
]

trailing_zeros-le : (f n : ℕ) → trailing_zeros f n ≤ f
unfolding trailing_zeros
trailing_zeros-le zero n = omega arith
trailing_zeros-le (suc f) n = ground (arith, trailing_zeros-le f (n / 2))

-- The block is the largest power of two from `2 ^ tz` down that fits, and stays aligned.
record Fits (start remaining tz block : ℕ) : Type 0 where
  k : ℕ
  q : ℕ
  small : k ≤ tz
  power : block ≡ 2 ^ k
  aligned : start ≡ q * 2 ^ k
  within : 2 ^ k ≤ remaining

shrink-Fits :
    (tz q start remaining : ℕ)
    → 0 < remaining
    → start ≡ q * 2 ^ tz
    → Fits start remaining tz (shrink tz (2 ^ tz) remaining)
unfolding shrink
shrink-Fits zero q start remaining pos a = record {
  k = 0;
  q = q;
  small = omega arith;
  power = refl;
  aligned = a;
  within = omega arith;
}
shrink-Fits (suc tz) q start remaining pos a = elim (Bool-cases (ltb remaining (2 ^ suc tz))) [
  | inl large ↦
      let half : 2 ^ suc tz / 2 ≡ 2 ^ tz = omega (arith, pow_double tz) in
      let r =
        shrink-Fits tz (2 * q) start remaining pos
          (omega (arith, ap (λ (t : ℕ). q * t) (pow_double tz))) in
      rw (large, half)
        (record {
          k = r.k;
          q = r.q;
          small = omega arith;
          power = r.power;
          aligned = r.aligned;
          within = r.within;
        })
  | inr fits ↦ rw fits (record {
    k = suc tz;
    q = q;
    small = omega arith;
    power = refl;
    aligned = a;
    within = ground arith;
  })
]

block_size-Fits :
    (start remaining : ℕ) → 0 < remaining → Fits start remaining 32 (block_size start remaining)
unfolding block_size
block_size-Fits start remaining pos = elim (Bool-cases (start == 0)) [
  | inl z ↦ rw z (shrink-Fits 32 0 start remaining pos (ground arith))
  | inr nz ↦
      let (q, e) = trailing_zeros_divide 32 start in
      let r = shrink-Fits (trailing_zeros 32 start) q start remaining pos e in
      rw nz (record {
        k = r.k;
        q = r.q;
        small = omega (arith, trailing_zeros-le 32 start);
        power = r.power;
        aligned = r.aligned;
        within = r.within;
      })
]

bit_len-zero : (f : ℕ) → bit_len f 0 ≡ 0
unfolding bit_len
bit_len-zero zero = refl
bit_len-zero (suc f) = refl

bit_len-pow : (f k : ℕ) → k < f → bit_len f (2 ^ k) ≡ suc k
unfolding bit_len
bit_len-pow zero k h = absurd (omega arith)
bit_len-pow (suc f) zero h = ap suc (bit_len-zero f)
bit_len-pow (suc f) (suc k) h =
    let half : 2 ^ suc k / 2 ≡ 2 ^ k = omega (arith, pow_double k) in
    ground (arith, pow_pos (suc k), bit_len-pow f k, half)

pub cut_range-Tiles :
    (f start end : ℕ)
    → end + 1 - start ≤ f
    → start ≤ end
    → end < 2 ^ 32
    → Tiles start end (cut_range f start end)
unfolding cut_range
cut_range-Tiles zero start end enough le top = absurd (omega arith)
cut_range-Tiles (suc f) start end enough le top =
    let remaining = end + 1 - start in
    let r = block_size-Fits start remaining (omega arith) in
    let p = pow_pos r.k in
    let ones : 32 - (bit_len 64 (2 ^ r.k) - 1) ≡ 32 - r.k =
      omega (arith, bit_len-pow 64 r.k (omega arith)) in
    let started : leb start end ≡ true = ground arith in
    rw (r.power, started)
      (elim (Bool-cases (leb remaining (2 ^ r.k))) [
        | inl done ↦ rw done (last r.k r.q r.small ones r.aligned (ground arith))
        | inr on ↦
            let small : 2 ^ r.k < remaining = ground arith in
            let next : (start + 2 ^ r.k % 2 ^ 32) % 2 ^ 32 ≡ start + 2 ^ r.k = omega arith in
            rw on (
              more r.k r.q r.small ones r.aligned next (omega arith)
                (cut_range-Tiles f _ end (omega arith) (omega arith) top))
      ])

-- For a range of IPv4 addresses that is not empty, the networks of `rangeToCIDRs` are CIDR blocks with
-- no host bits that cover it: the first starts at its start, each starts where the one in front of it
-- ends, and the last ends at its end.
pub range_to_cidrs-Tiles :
    (start end : ℕ) → start ≤ end → end < 2 ^ 32 → Tiles start end (range_to_cidrs start end)
unfolding range_to_cidrs
range_to_cidrs-Tiles start end le top =
    cut_range-Tiles (end + 1 - start) start end (omega arith) le top

-- The addresses that agree with `q * d` above the digit `d` are the next `d` ones.
pub div-eq_iff : (x q d : ℕ) → 0 < d → (x / d ≡ q) ↔ ((q * d ≤ x) × (x < q * d + d))
div-eq_iff x q d pos = (
  λ e. (grind (arith, div-add-mod x d, mod-lt), grind (arith, div-add-mod x d, mod-lt)),
  λ h. grind (arith, div-add-mod x d, mod-lt),
)

-- A block holds the addresses from its own up to the next.
block-InNet :
    (x lo ones k q : ℕ)
    → k ≤ 32
    → ones ≡ 32 - k
    → lo ≡ q * 2 ^ k
    → InNet x (v4 lo ones) ↔ ((lo ≤ x) × (x < lo + 2 ^ k))
block-InNet x lo ones k q small e a =
    let host : 32 - ones ≡ k = omega arith in
    let base : lo / 2 ^ k ≡ q = rw a (mul-div_left q (pow_pos k)) in
    rw (host, base, a) (div-eq_iff x q (2 ^ k) (pow_pos k))

-- The blocks of a tiled range hold the addresses of the range and no others.
pub Tiles-InNets :
    {lo hi : ℕ} {ns : List IpNet} (x : ℕ)
    → Tiles lo hi ns
    → (lo ≤ hi) × (InNets x ns ↔ ((lo ≤ x) × (x ≤ hi)))
Tiles-InNets x (last {lo} {hi} {ones} k q small e a end) =
    let b = block-InNet x lo ones k q small e a in
    let p = pow_pos k in (omega arith, ((λ m. ground arith), λ h. inl (b.1 (h.0, omega arith))))
Tiles-InNets x (more {lo} {hi} {ones} k q small e a step room rest) =
    let b = block-InNet x lo ones k q small e a in
    let r = Tiles-InNets x rest in
    let p = pow_pos k in (omega arith, ((λ m. ground arith), λ h. ground arith))
