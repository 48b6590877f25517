-- ===== src/Consensus/Total.antt =====
-- When `evaluate` of the weighted and of the evidence-weighted strategy raises nothing.
pub mod Values
pub mod Rounds
pub mod Linear
pub mod Blends
pub mod Graded
