-- ===== src/Payment.antt =====
-- server/controllers/payment: payments that a sub declares or a goddess records, and their review.
pub mod Rules
pub mod Effects
pub mod Declare
pub mod Review
pub mod Invariant
pub mod Writes
pub mod Frame
pub mod Settles
pub mod Jobs
pub mod Breaches
pub mod Renewals
