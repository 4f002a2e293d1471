-- ===== src/Nft.antt =====
-- internal/nft/generator.go: the nftables ruleset, in the build without network debugging, whose
-- constant `buildmode.NetworkDebug` is false. A `strings.Builder` is the text written so far: what
-- writes to it returns the text that it adds.
pub mod Packet
pub mod Sets
pub mod Generate
pub mod Ports
pub mod Panics
pub mod Accepted
pub mod Lines
pub mod Ranges
pub mod Transports
pub mod LineSets
pub mod Selects
