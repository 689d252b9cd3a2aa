-- ===== src/Transfer.antt =====
-- What the client makes of the answers to uploads and downloads: utils/public-upload-outcome.ts,
-- utils/owner-upload-outcome.ts and utils/download-error.ts.
pub mod Upload
pub mod Accepted
pub mod Failure
mod Tests
