-- ===== src/DnsProxy.antt =====
-- internal/dnsproxy: DNS messages as lists of bytes, the answers that the proxy makes itself, the
-- choice of an upstream, and the bounded pools of forwards.
pub mod Message
pub mod Name
pub mod Response
pub mod Edns
pub mod Options
pub mod Routing
pub mod Forward
pub mod Decision
pub mod Pools
pub mod Framing
pub mod Forwarded
