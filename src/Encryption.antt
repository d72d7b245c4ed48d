-- ===== src/Encryption.antt =====
-- backend/app/services/encryption.py: hybrid encryption of files and manifest lines.
pub mod Crypto
pub mod Frame
pub mod Encrypt
pub mod Decrypt
pub mod Chunks
pub mod Shape
pub mod Loops
pub mod Blob
pub mod Files
pub mod ManifestLine
pub mod Tests
