-- ===== src/Search.antt =====
-- src/metadata_schema and src/search: the schema of a collection's metadata, filters on it, media, and
-- the search over an index.
pub mod Schema
pub mod Filtering
pub mod Service
pub mod Media
pub mod Tests
