-- ===== src/Examples.antt =====
-- The theorems at concrete inputs.
mod Contexts
mod Engine
mod Pieces
mod Totals
mod Budgets
mod Critiques
mod Digest
mod Ledgers
mod Lifecycles
mod Members
mod Replays
mod Retrieval
