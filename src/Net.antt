-- ===== src/Net.antt =====
-- include/net: sockets and listeners.
pub mod Ownership
