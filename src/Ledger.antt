-- ===== src/Ledger.antt =====
-- The append-only reasoning ledger: backend/app/domain/reasoning_ledger.py and the adapter
-- `SqlAlchemyReasoningLedger` of backend/app/db/reasoning_ledger.py.
pub mod Defs
pub mod Chain
pub mod Append
pub mod Retry
pub mod Tamper
