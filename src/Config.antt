-- ===== src/Config.antt =====
-- internal/config/config.go.
pub mod Types
pub mod Access
pub mod Uci
pub mod Lists
pub mod Clean
pub mod Dns
pub mod Complete
pub mod ApplyMain
pub mod ParseSection
pub mod ParseOutbound
pub mod Parse
pub mod Priority
pub mod Fault
pub mod Validate
pub mod Trimmed
