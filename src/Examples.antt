-- ===== src/Examples.antt =====
-- Tests on concrete inputs, and the theorems at inputs that meet their hypotheses.
mod Policy
mod RuleEngine
mod DnsProxy
mod Importer
mod Config
mod Validate
mod Nft
mod Provider
mod Routes
mod OutboundPool
mod Apply
