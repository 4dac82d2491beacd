-- ===== src/Netcfg.antt =====
-- internal/netcfg: the network-configuration domain.
pub mod Result
pub mod Exec
pub mod Types
pub mod Names
pub mod Validate
pub mod Backend
pub mod Service
pub mod Store
