-- ===== src/Manager.antt =====
-- `DownloadManager` of backend/app/services/download_manager.py.
pub mod State
pub mod Control
pub mod Lookup
pub mod Touches
pub mod Pausing
pub mod Cancelling
pub mod Retry
pub mod Add
pub mod Poll
pub mod Complete
pub mod RetrySteps
pub mod Retrying
pub mod Polling
pub mod CompletionSteps
pub mod Completing
pub mod Calls
pub mod Adding
pub mod Restore
pub mod HttpDownload
pub mod Ranges
pub mod Resuming
pub mod Restored
pub mod Reattaching
pub mod RestoreSteps
pub mod Restoring
pub mod Tests
mod RestartTests
