-- ===== src/Completed.antt =====
-- The file half of `Store` in backend/app/services/store.py: the encrypted files and the manifest, which
-- `parse_manifest_text` of backend/app/services/encryption.py reads.
pub mod Files
pub mod Rows
pub mod Lookup
pub mod Deletion
pub mod Storing
pub mod Parse
pub mod Printing
pub mod Listing
pub mod Listed
mod Tests
