-- ===== src/Cache.antt =====
-- crates/chromulate-cache: the HTTP cache. `Storage` is the bounded store in memory (storage.rs),
-- `Date` the dates of header fields (date.rs), `Directive` is `Cache-Control` (directive.rs),
-- `Entry` what is stored (entry.rs), `Policy` what may be stored and served (policy.rs).
pub mod Storage
pub mod Date
pub mod Directive
pub mod Entry
pub mod Policy
mod Tests
