-- ===== src/Tests.antt =====
-- The theorems of the library at concrete inputs.
mod Commands
mod Ospf
mod Sync
mod Broadcast
mod Services
mod Client
mod Instance
