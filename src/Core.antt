-- ===== src/Core.antt =====
-- crates/chromulate-core: `Error` is the hierarchy of errors (error.rs), `Uri` the origins (uri.rs).
pub mod Error
pub mod Uri
