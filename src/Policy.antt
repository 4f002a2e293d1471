-- ===== src/Policy.antt =====
-- internal/policy/cidr.go: IPv4 networks as ranges of addresses, merged and cut into CIDR blocks.
-- An address is a number below 2 ^ 32; a `net.IPNet` is its address and the length of its mask.
pub mod Cidr
pub mod Blocks
pub mod Merge
pub mod Normalize
pub mod Parse
pub mod Load
pub mod Printed
