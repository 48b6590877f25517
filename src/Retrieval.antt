-- ===== src/Retrieval.antt =====
-- Retrieval of evidence: backend/app/domain/retrieval.py and backend/app/application/retrieval.py.
pub mod Types
pub mod Fusion
pub mod Retriever
pub mod Audited
pub mod Distinct
pub mod Bounds
pub mod Ranks
