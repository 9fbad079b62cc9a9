-- ===== src/Search/Filtering.antt =====
-- src/search/filtering.rs and its folder: from a query to candidate anchors.
pub mod Neighborhood
pub mod Eta
pub mod Selector
pub mod Generation
pub mod Pigeonhole
