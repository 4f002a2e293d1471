-- ===== src/Net.antt =====
-- IP addresses: what the program uses of package `net`.
pub mod Parse
pub mod Url
use zakop.Prelude.{
  ℕ, ◌-◌, ◌/◌, ◌%◌, Bool, true, false, ◌&&◌, List, [], ◌∷◌, ◌++◌, ◌==◌, ◌^◌, if◌then◌else◌,
}
use zakop.Text.{Str, codes, join}
use zakop.Text.Number.{itoa}
use zakop.Policy.Cidr.{IpNet, v4, other}

-- A `net.IP` of 16 bytes: an IPv4 address, mapped ones included, or the eight groups of another.
pub data IpAddr : Type 0 where
  ip4 : ℕ → IpAddr
  ip6 : List ℕ → IpAddr

-- `ip.String()` of an IPv4 address.
unfoldable pub ipv4_string : ℕ → Str
unfolding itoa join
ipv4_string a =
    join
      (itoa (a / 0x100_0000 % 256)
        ∷ itoa (a / 0x1_0000 % 256)
        ∷ itoa (a / 0x100 % 256)
        ∷ itoa (a % 256)
        ∷ [])
      (codes ".")

loopback6 : List ℕ → Bool
loopback6 [] = false
loopback6 (g ∷ []) = g == 1
loopback6 (g ∷ h ∷ gs) = g == 0 && loopback6 (h ∷ gs)

-- `ip.IsLoopback()`.
unfoldable pub is_loopback : IpAddr → Bool
unfolding loopback6
is_loopback (ip4 a) = a / 0x100_0000 == 127
is_loopback (ip6 gs) = loopback6 gs

-- `subnet.Contains(ip)` for an IPv4 address. A network in the notation of IPv6 that holds such
-- addresses is read by `parse_subnet` as one of IPv4.
unfoldable pub net_contains : IpNet → ℕ → Bool
net_contains (v4 a ones) x = x / 2 ^ (32 - ones) == a / 2 ^ (32 - ones)
net_contains other x = false
