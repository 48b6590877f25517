-- ===== src/Consensus/Sound.antt =====
-- Each strategy of backend/app/application/consensus.py keeps the contract of strategies.
pub mod Weighted
pub mod EvidenceWeighted
pub mod ConstraintAware
