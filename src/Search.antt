-- ===== src/Search.antt =====
-- utils/vault-search-index.ts of the client: the inverted index of the files' names, folders, tags
-- and snippets, and the search on it. `toLowerCase` and `normalize("NFD")` are parameters.
pub mod Terms
pub mod Index
pub mod Query
pub mod Linked
pub mod Enriched
pub mod Sync
pub mod Results
mod Tests
