-- ===== src/Provider.antt =====
-- internal/provider: the lists that providers download, and what is written back to the
-- configuration.
pub mod Lists
pub mod Chunks
pub mod Networks
pub mod Written
pub mod Cached
