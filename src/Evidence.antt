-- ===== src/Evidence.antt =====
-- crates/ovid-evidence: evidence records, the hash-chained ledger, and claims.
pub mod Record
pub mod Ledger
pub mod Confidence
pub mod Claim
