-- ===== src/Session.antt =====
-- The lifecycle of a session: backend/app/domain/session_lifecycle.py with its two stores,
-- backend/app/db/session_lifecycle.py and backend/app/adapters/inmemory/session_lifecycle.py, and
-- the controls of backend/app/domain/session_control.py and
-- backend/app/application/session_control.py.
pub mod States
pub mod Store
pub mod Controls
pub mod Graph
pub mod Transition
pub mod Adapters
pub mod Effects
pub mod History
pub mod Requests
pub mod Replay
