-- ===== src/Net/Parse/Bounds.antt =====
-- The IPv4 networks that `net.ParseCIDR` returns are addresses and masks of IPv4.
use zakop.Prelude.{
  ℕ, ◌<◌, ◌≤◌, ◌≡◌, ◌⊎◌, inl, inr, refl, subst, Bool, true, false, not, ◌&&◌, List, [], ◌∷◌, Option,
  none, some, ltb, leb, ◌==◌, arith, if◌then◌else◌, Bool-cases, Option-cases, leb→le,
}
use zakop.Text.{Str, codes, split, cut, contains, has_prefix}
use zakop.Text.Number.{number, number_from, digit_value}
use zakop.Policy.Cidr.{IpNet, v4, other, masked}
use zakop.Net.{IpAddr, ip4, ip6}
use zakop.Net.Parse.{
  octet, octets, parse_ipv4, parse_form, parse_ip, parse_cidr, mask_length, ◌>>=◌, guard,
}

-- What a chain of results rests on.
bind-some :
    {A B : Type 0} (o : Option A) (f : A → Option B) (b : B)
    → (o >>= f) ≡ some b
    → (a : A) × (o ≡ some a) × (f a ≡ some b)
bind-some none f b e = absurd (ground (arith, e))
bind-some (some a) f b e = (a, refl, e)

guard-true : (b : Bool) (u : Unit) → guard b ≡ some u → b ≡ true
guard-true true u e = refl
guard-true false u e = absurd (ground (arith, e))

octet-bound : (s : Str) (n : ℕ) → octet s ≡ some n → n < 256
unfolding octet number number_from
octet-bound [] n e = absurd (ground (arith, e))
octet-bound (c ∷ []) n e = elim (Option-cases (digit_value c)) [
  | inl bad ↦ absurd (ground (arith, bad, e))
  | inr (d, good) ↦ ground (arith, good, e)
]
octet-bound (c ∷ d ∷ s) n e =
    let (m, _, e1) = bind-some (number 10 (c ∷ d ∷ s)) _ n e in
    let (u, g, e2) = bind-some (guard (ltb m 256 && not (c == b'0'))) _ n e1 in
    let t = guard-true (ltb m 256 && not (c == b'0')) u g in ground (arith, t, e2)

octets-bound : (ps : List Str) (a : ℕ) → octets ps ≡ some a → a < 0x1_0000_0000
unfolding octets
octets-bound (p ∷ q ∷ r ∷ t ∷ []) a e =
    let (w, ew, e1) = bind-some (octet p) _ a e in
    let (x, ex, e2) = bind-some (octet q) _ a e1 in
    let (y, ey, e3) = bind-some (octet r) _ a e2 in
    let (z, ez, e4) = bind-some (octet t) _ a e3 in
    ground
      (arith, e4, octet-bound p w ew, octet-bound q x ex, octet-bound r y ey, octet-bound t z ez)
octets-bound [] a e = absurd (ground (arith, e))
octets-bound (p ∷ []) a e = absurd (ground (arith, e))
octets-bound (p ∷ q ∷ []) a e = absurd (ground (arith, e))
octets-bound (p ∷ q ∷ r ∷ []) a e = absurd (ground (arith, e))
octets-bound (p ∷ q ∷ r ∷ t ∷ u ∷ ps) a e = absurd (ground (arith, e))

-- An address without a colon is one of four octets.
parse_form-bound :
    (s rest : Str) (a : ℕ)
    → parse_form s rest ≡ some (ip4 a)
    → (a < 0x1_0000_0000) ⊎ (contains rest (codes ":") ≡ true)
unfolding parse_form parse_ipv4 contains has_prefix
parse_form-bound s [] a e = absurd (ground (arith, e))
parse_form-bound s (c ∷ rest) a e = elim (Bool-cases (c == b'.')) [
  | inl dot ↦
      let four : (parse_ipv4 s >>= (λ n. some (ip4 n))) ≡ some (ip4 a) = rw dot at e in
      let (n, found, same) = bind-some (parse_ipv4 s) (λ n. some (ip4 n)) (ip4 a) four in
      inl (ground (arith, octets-bound (split b'.' s) n found, same))
  | inr other_mark ↦ elim (Bool-cases (c == b':')) [
    | inl colon ↦ inr (rw colon refl)
    | inr no_colon ↦ elim (Bool-cases (c == b'%')) [
      | inl zone ↦ absurd (ground (arith, other_mark, no_colon, zone, e))
      | inr more ↦
          let later : parse_form s rest ≡ some (ip4 a) = rw (other_mark, no_colon, more) at e in
          elim (parse_form-bound s rest a later) [
            | inl bound ↦ inl bound
            | inr colon ↦ inr (rw (no_colon, colon) refl)
          ]
    ]
  ]
]

-- The result of `ParseCIDR` in IPv4 notation.
abbrev pub AreIpv4 : Option ℕ → IpNet → Type 0
AreIpv4 (some a) (v4 b ones) = (a < 0x1_0000_0000) × (ones ≤ 32)
AreIpv4 _ _ = Unit

-- The end of `parse_cidr`.
abbrev network : Str → Str → IpAddr → Option (Option ℕ × IpNet)
network addr len (ip4 a) =
    if contains addr (codes ":")
    then mask_length 128 len >>= (λ n. some (some a, other))
    else mask_length 32 len >>= (λ ones. some (some a, v4 (masked a ones) ones))
network addr len (ip6 gs) = mask_length 128 len >>= (λ n. some (none, other))

mask_length-bound : (top : ℕ) (s : Str) (n : ℕ) → mask_length top s ≡ some n → n ≤ top
unfolding mask_length
mask_length-bound top s n e =
    let (m, _, e1) = bind-some (number 10 s) _ n e in
    let (u, g, e2) = bind-some (guard (leb m top)) _ n e1 in
    ground (arith, leb→le m top (guard-true (leb m top) u g), e2)

abbrev ResultIpv4 : Option (Option ℕ × IpNet) → Type 0
ResultIpv4 none = Unit
ResultIpv4 (some (ip, net)) = AreIpv4 ip net

network-AreIpv4 :
    (addr len : Str) (i : IpAddr) (ip : Option ℕ) (net : IpNet)
    → parse_form addr addr ≡ some i
    → network addr len i ≡ some (ip, net)
    → AreIpv4 ip net
network-AreIpv4 addr len (ip4 a) ip net found e = elim (Bool-cases (contains addr (codes ":"))) [
  | inl colon ↦
      let masked_len : (mask_length 128 len >>= (λ n. some (some a, other))) ≡ some (ip, net) =
        rw colon at e in
      let (n, _, same) = bind-some (mask_length 128 len) (λ n. some (some a, other)) _ masked_len in
      subst ResultIpv4 same tt
  | inr plain ↦
      let bound : a < 0x1_0000_0000 = ground (arith, parse_form-bound addr addr a found, plain) in
      let short : (mask_length 32 len >>= (λ ones. some (some a, v4 (masked a ones) ones)))
          ≡ some (ip, net) =
        rw plain at e in
      let (ones, le, same) =
        bind-some (mask_length 32 len) (λ ones. some (some a, v4 (masked a ones) ones)) _ short in
      subst ResultIpv4 same (bound, mask_length-bound 32 len ones le)
]
network-AreIpv4 addr len (ip6 gs) ip net found e =
    let (n, _, same) = bind-some (mask_length 128 len) (λ n. some (none, other)) (ip, net) e in
    subst ResultIpv4 same tt

pub parse_cidr-AreIpv4 :
    (s : Str) (ip : Option ℕ) (net : IpNet) → parse_cidr s ≡ some (ip, net) → AreIpv4 ip net
unfolding parse_cidr parse_ip
parse_cidr-AreIpv4 s ip net e =
    let ((addr, len), _, e1) = bind-some (cut b'/' s) _ (ip, net) e in
    let (i, found, e2) = bind-some (parse_form addr addr) _ (ip, net) e1 in
    network-AreIpv4 addr len i ip net found e2
