-- ===== src/Sharing.antt =====
-- Shared folders: utils/folder-share.ts (a file's key from its wrapped form), utils/folder-share-sync.ts
-- (new files of a shared folder get a key under the folder's key), utils/owner-private-key.ts and
-- utils/folder-share-repair.ts. The operations of utils/crypto.ts and the server are parameters.
pub mod FileKey
pub mod Sync
pub mod ById
pub mod Missing
pub mod Links
pub mod Ancestors
mod Tests
