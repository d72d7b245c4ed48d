-- ===== src/Jobs.antt =====
-- The jobs of backend/app/services/store.py: their records, snapshots and registry.
pub mod Record
pub mod Snapshot
pub mod Registry
pub mod Persistence
mod Tests
