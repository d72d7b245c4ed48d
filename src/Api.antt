-- ===== src/Api.antt =====
-- The routes of backend/app/main.py that the pull client calls, and the web's deletion of a file.
pub mod Routes
pub mod Exclusive
pub mod LetIn
pub mod Deleting
pub mod Shelf
pub mod Serving
pub mod Contract
pub mod Delivered
mod Tests
mod ContractTests
