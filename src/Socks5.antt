-- ===== src/Socks5.antt =====
-- include/socks5: the proxy server.
pub mod Process
pub mod Server
pub mod Forward
pub mod Session
pub mod Serving
