-- ===== src/Concurrency.antt =====
-- crates/chromulate-concurrency: how many requests an origin may have in flight.
-- `Config` is `ConcurrencyConfig`, `Origin` the record kept for each origin, `Feedback` what a
-- finished request teaches it (adaptive.rs); the other children hold proofs.
pub mod Config
pub mod Origin
pub mod Feedback
pub mod Invariant
pub mod Latch
pub mod Backpressure
pub mod Cooldown
mod Tests
