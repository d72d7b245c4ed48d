-- ===== src/Auth.antt =====
-- The login throttle, the session and bearer guards of backend/app/auth.py, and the gate in front of the
-- API in backend/app/main.py.
pub mod Guards
pub mod Throttle
pub mod Gate
pub mod Window
pub mod Access
mod Tests
