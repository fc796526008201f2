-- ===== src/Consistency.antt =====
-- The ledger invariant of the server, over server/controllers/debt and server/controllers/payment,
-- and the lemmas on each operation.
pub mod Invariant
pub mod Lifecycle
pub mod Writes
pub mod Proposals
pub mod Counters
pub mod Signature
pub mod Events
pub mod Adjustments
pub mod Penalties
pub mod Settlement
pub mod Payments
pub mod Ticks
pub mod Runs
pub mod Bulk
pub mod Breaches
