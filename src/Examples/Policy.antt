-- ===== src/Examples/Policy.antt =====
-- internal/policy/cidr.go on concrete networks.
use zakop.Prelude.{ℕ, ◌≡◌, ◌↔◌, refl, List, [], ◌∷◌, Option, some, none, arith}
use zakop.Policy.Cidr.{IpNet, v4, other, normalize_ipv4_cidrs, range_to_cidrs}
use zakop.Policy.Blocks.{InNets, Tiles, range_to_cidrs-Tiles}
use zakop.Policy.Normalize.{InInput, normalize_ipv4_cidrs-InNets, normalize_ipv4_cidrs_ext}

-- 10.0.0.0/25, 10.0.0.128/25 and 10.0.0.7/32, with a nil network and one that is not IPv4.
abbrev halves : List (Option IpNet)
halves =
    some (v4 0x0a00_0080 25)
    ∷ none
    ∷ some (v4 0x0a00_0007 32)
    ∷ some other
    ∷ some (v4 0x0a00_0000 25)
    ∷ []

-- 10.0.0.0/24, with host bits set.
abbrev whole : List (Option IpNet)
whole = some (v4 0x0a00_0011 24) ∷ []

normalize-halves : normalize_ipv4_cidrs halves ≡ v4 0x0a00_0000 24 ∷ []
unfolding normalize_ipv4_cidrs
normalize-halves = refl

-- The whole address space, and a range that needs several blocks.
range_all : range_to_cidrs 0 0xffff_ffff ≡ v4 0 0 ∷ []
unfolding range_to_cidrs
range_all = refl

range_uneven : range_to_cidrs 1 6 ≡ v4 1 32 ∷ v4 2 31 ∷ v4 4 31 ∷ v4 6 32 ∷ []
unfolding range_to_cidrs
range_uneven = refl

normalize_ipv4_cidrs-InNets_example :
    InNets 0x0a00_0081 (normalize_ipv4_cidrs halves) ↔ InInput 0x0a00_0081 halves
normalize_ipv4_cidrs-InNets_example = normalize_ipv4_cidrs-InNets 0x0a00_0081 halves (omega arith)

abbrev twice : List (Option IpNet)
twice = some (v4 0x0a00_0000 24) ∷ some (v4 0x0a00_0000 24) ∷ []

once-twice : (x : ℕ) → InInput x whole ↔ InInput x twice
once-twice x = ground arith

normalize_ipv4_cidrs_ext_example : normalize_ipv4_cidrs whole ≡ normalize_ipv4_cidrs twice
normalize_ipv4_cidrs_ext_example =
    normalize_ipv4_cidrs_ext whole twice (omega arith) (omega arith) once-twice

range_to_cidrs-Tiles_example : Tiles 1 6 (range_to_cidrs 1 6)
range_to_cidrs-Tiles_example = range_to_cidrs-Tiles 1 6 (omega arith) (omega arith)
