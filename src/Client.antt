-- ===== src/Client.antt =====
-- chatterc/: the client, without the terminal that it reads and writes.
pub mod Prefix
pub mod Layout
pub mod Tab
pub mod Session
pub mod Pager
pub mod Table
