-- ===== src/Pairing.antt =====
-- backend/app/services/pairing.py: one pull client owns listing, download and deletion.
pub mod State
pub mod Service
pub mod Ownership
pub mod History
mod Tests
