-- ===== src/Search.antt =====
-- src/search.rs and the folder src/search/: building and querying an index.
pub mod Bound
pub mod Matches
pub mod Encoding
pub mod Filtering
pub mod Verification
pub mod Engine
pub mod RangeSearch
pub mod Builder
pub mod Persistence
