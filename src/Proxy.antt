-- ===== src/Proxy.antt =====
-- crates/chromulate-proxy: the negotiation with a SOCKS5 proxy (socks5.rs, and url.rs in part).
pub mod Stream
pub mod Socks5
