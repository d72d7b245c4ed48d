-- ===== src/Pull.antt =====
-- The pull client, scripts/pull.py: it lists the completed files of a server, downloads and decrypts
-- each into a local directory, and deletes it on the server.
pub mod Names
pub mod Paths
pub mod Decimal
pub mod Fresh
pub mod SafeName
pub mod Progress
pub mod Milestones
pub mod Client
pub mod Process
pub mod Cycle
pub mod Quiet
pub mod Transfers
pub mod Outcome
pub mod Kept
pub mod Safety
pub mod Honest
pub mod Delivery
pub mod Drained
mod Tests
pub mod ServerTests
