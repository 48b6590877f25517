-- ===== src/Critiques.antt =====
-- Critiques and the responses to them: backend/app/domain/critique.py, with what
-- backend/app/application/critique_commit.py and backend/app/application/critique_response.py make of them.
pub mod Types
pub mod Bundles
pub mod Responses
pub mod Accepted
pub mod Answered
