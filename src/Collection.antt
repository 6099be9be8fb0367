-- ===== src/Collection.antt =====
-- util/collection: the slice with an index by key.
pub mod IndexingSlice
