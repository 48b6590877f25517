-- ===== src/Consensus.antt =====
-- The consensus engine: backend/app/ports/consensus.py, backend/app/domain/consensus.py and
-- backend/app/application/consensus.py, a module for each part.
pub mod Types
pub mod Params
pub mod Gate
pub mod Support
pub mod Checks
pub mod Evidence
pub mod Dominance
pub mod Outcome
pub mod Weighted
pub mod EvidenceWeighted
pub mod ConstraintAware
pub mod Registry
pub mod Orchestrator
pub mod Contract
pub mod Ranking
pub mod Sound
pub mod Frontier
pub mod Total
