-- ===== src/Replays.antt =====
-- Replays of a recorded session: backend/app/domain/replay.py and backend/app/application/replay.py.
pub mod Types
pub mod Registry
pub mod Steps
pub mod Service
pub mod Modes
pub mod Pages
pub mod Total
pub mod Answers
pub mod Reproduced
pub mod Strict
pub mod Tolerant
