-- ===== src/Ospf.antt =====
-- ospf/: link-state advertisements and the interface state machine.
pub mod Lsa
pub mod Checksum
pub mod Interface
pub mod Instance
