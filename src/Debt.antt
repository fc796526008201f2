-- ===== src/Debt.antt =====
-- server/controllers/debt: the life of a debt contract, from proposal to signature, with clauses,
-- penalties and adjustments.
pub mod Propose
pub mod Counter
pub mod Sign
pub mod Clauses
pub mod Resave
pub mod Adjust
pub mod Leaves
