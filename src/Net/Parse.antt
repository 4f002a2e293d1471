-- ===== src/Net/Parse.antt =====
-- `net.ParseIP` and `net.ParseCIDR`.
pub mod Bounds
pub mod Printed
use zakop.Prelude.{
  ℕ, zero, ◌+◌, ◌-◌, ◌*◌, ◌/◌, ◌%◌, Bool, true, false, not, ◌&&◌, List, [], ◌∷◌, ◌++◌, Option, none,
  some, ltb, leb, ◌==◌, if◌then◌else◌, length, replicate,
}
use zakop.Text.{Str, codes, split, cut, contains}
use zakop.Text.Number.{number}
use zakop.Policy.Cidr.{IpNet, v4, other, masked}
use zakop.Net.{IpAddr, ip4, ip6}

infixl 5 ◌>>=◌
abbrev ◌>>=◌ : {A B : Type 0} → Option A → (A → Option B) → Option B
none >>= f = none
some a >>= f = f a

abbrev guard : Bool → Option (Unit {0})
guard true = some tt
guard false = none

-- A decimal octet: at most 255, and no leading zero.
octet : Str → Option ℕ
octet [] = none
octet (c ∷ []) = number 10 (c ∷ [])
octet (c ∷ d ∷ s) = do n ← number 10 (c ∷ d ∷ s); _ ← guard (ltb n 256 && not (c == b'0')); some n

octets : List Str → Option ℕ
octets (a ∷ b ∷ c ∷ d ∷ []) = do
  w ← octet a
  x ← octet b
  y ← octet c
  z ← octet d
  some (w * 0x100_0000 + x * 0x1_0000 + y * 0x100 + z)
octets _ = none

parse_ipv4 : Str → Option ℕ
unfolding octets octet number split
parse_ipv4 s = octets (split b'.' s)

-- The groups that the pieces of an IPv6 text spell; the last piece may be an IPv4 address if
-- `tail` says so.
groups : Bool → List Str → Option (List ℕ)
groups tail [] = some []
groups tail (p ∷ ps) =
    let rest = groups tail ps in
    let group = (do g ← number 16 p; _ ← guard (leb (length p) 4); gs ← rest; some (g ∷ gs)) in
    let embedded = (do a ← parse_ipv4 p; some (a / 0x1_0000 ∷ a % 0x1_0000 ∷ [])) in
    elim ps [ [] ↦ if tail && contains p (codes ".") then embedded else group | _ ∷ _ ↦ group ]

-- The groups on one side of `::`, which may be empty.
side : Bool → Str → Option (List ℕ)
side tail [] = some []
side tail (c ∷ s) = groups tail (split b':' (c ∷ s))

-- The text in front of the first `::`, and the text behind it.
cut_double : Str → Option (Str × Str)
cut_double [] = none
cut_double (c ∷ []) = none
cut_double (c ∷ d ∷ s) =
    let rest = cut_double (d ∷ s) in
    if c == b':' && d == b':'
    then some ([], s)
    else elim rest [ none ↦ none | some (a, b) ↦ some (c ∷ a, b) ]

-- The mapped IPv4 addresses are IPv4 addresses.
from_groups : List ℕ → IpAddr
from_groups (zero ∷ zero ∷ zero ∷ zero ∷ zero ∷ m ∷ h ∷ l ∷ []) =
    if m == 0xffff then ip4 (h * 0x1_0000 + l) else ip6 (0 ∷ 0 ∷ 0 ∷ 0 ∷ 0 ∷ m ∷ h ∷ l ∷ [])
from_groups gs = ip6 gs

parse_ipv6 : Str → Option IpAddr
parse_ipv6 s = elim (cut_double s) [
  | none ↦ do gs ← groups true (split b':' s); _ ← guard (length gs == 8); some (from_groups gs)
  | some (a, b) ↦ do
    before ← side false a
    after ← side true b
    _ ← guard (ltb (length before + length after) 8)
    some (from_groups (before ++ (replicate (8 - (length before + length after)) 0 ++ after)))
]

-- The first of the three marks decides the form.
parse_form : Str → Str → Option IpAddr
parse_form s [] = none
parse_form s (c ∷ rest) =
    if c == b'.'
    then (do a ← parse_ipv4 s; some (ip4 a))
    else if c == b':'
    then parse_ipv6 s
    else if c == b'%'
    then none
    else parse_form s rest

-- `net.ParseIP`; `none` is the nil address.
unfoldable pub parse_ip : Str → Option IpAddr
unfolding parse_form parse_ipv6 parse_ipv4 from_groups cut_double side groups contains
parse_ip s = parse_form s s

-- The length of a mask, in decimal: at most `top`.
mask_length : ℕ → Str → Option ℕ
mask_length top s = do n ← number 10 s; _ ← guard (leb n top); some n

-- `net.ParseCIDR`, read through the IPv4 view of its results: the address, if it is IPv4, and the
-- network with the host bits cleared.
unfoldable pub parse_cidr : Str → Option (Option ℕ × IpNet)
unfolding parse_ip mask_length cut
parse_cidr s = do
  (addr, len) ← cut b'/' s
  ip ← parse_ip addr
  elim ip [
    | ip4 a ↦
        if contains addr (codes ":")
        then (do _ ← mask_length 128 len; some (some a, other))
        else (do ones ← mask_length 32 len; some (some a, v4 (masked a ones) ones))
    | ip6 gs ↦ do _ ← mask_length 128 len; some (none, other)
  ]

-- `net.ParseCIDR`, with the network as `IPNet.Contains` reads it for an address of IPv4: one in the
-- notation of IPv6 is one of IPv4 if its mask leaves the addresses mapped, which are then compared
-- by the last 32 bits. `other` holds no address of IPv4.
abbrev mapped_subnet : ℕ → ℕ → IpNet
mapped_subnet a len = if leb 96 len then v4 (masked a (len - 96)) (len - 96) else other

unfoldable pub parse_subnet : Str → Option IpNet
unfolding parse_ip mask_length cut
parse_subnet s = do
  (addr, len) ← cut b'/' s
  ip ← parse_ip addr
  elim ip [
    | ip4 a ↦
        if contains addr (codes ":")
        then (do n ← mask_length 128 len; some (mapped_subnet a n))
        else (do ones ← mask_length 32 len; some (v4 (masked a ones) ones))
    | ip6 gs ↦ do _ ← mask_length 128 len; some other
  ]
