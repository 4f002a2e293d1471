-- ===== src/Importer.antt =====
-- internal/importer: nodes written as sections of the configuration.
pub mod Format
pub mod Quote
pub mod Line
pub mod Breaks
pub mod RoundTrip
pub mod Fields
pub mod Endpoint
pub mod Tag
pub mod Unused
pub mod Chunks
pub mod Apply
pub mod Assigned
pub mod Written
