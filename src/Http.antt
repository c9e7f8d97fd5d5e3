-- ===== src/Http.antt =====
-- crates/chromulate-http: the connection pool (pool.rs), redirects (redirect.rs), retries
-- (middleware/retry.rs) and strict transport security (hsts.rs).
pub mod Pool
pub mod Retry
pub mod Redirect
pub mod Hsts
