-- ===== src/Cookie.antt =====
-- crates/chromulate-cookie: `Domain` and `Path` are the matching of hosts and paths (domain.rs,
-- path.rs), `Expiry` the dates of cookies (date.rs), `Parsing` a `Set-Cookie` value and what a
-- cookie applies to (cookie.rs), `Bucket` and `Jar` the jar (jar.rs).
pub mod Domain
pub mod Path
pub mod Expiry
pub mod Parsing
pub mod Bucket
pub mod Jar
mod Tests
