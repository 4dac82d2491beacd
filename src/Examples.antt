-- ===== src/Examples.antt =====
-- The theorems at concrete inputs.
mod Addresses
mod Service
mod Pools
mod Routing
mod Dns
mod V6
mod Ifaces
mod Backup
mod Events
