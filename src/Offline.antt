-- ===== src/Offline.antt =====
-- The offline queue of the client: utils/offline-sync.ts (which actions may be sent, what an answer
-- means, how requests are cut), utils/offline-db.ts (the stored queue) and their synchronisation in
-- components/layout/dashboard-layout.tsx.
pub mod Sync
pub mod Queue
pub mod Classify
pub mod Match
pub mod Chunks
pub mod Storage
pub mod Dashboard
pub mod Fate
pub mod SyncSteps
pub mod SyncFate
pub mod Settled
pub mod SentOnce
pub mod Review
mod Tests
mod SyncTests
