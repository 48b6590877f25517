-- ===== src/Members.antt =====
-- Membership interventions: backend/app/domain/coordinator_policy.py,
-- backend/app/db/coordinator_policy.py and backend/app/application/coordinator_policy.py.
pub mod Types
pub mod Store
pub mod Coordinator
pub mod Order
pub mod Change
pub mod Valid
pub mod Approve
pub mod Apply
pub mod Retry
