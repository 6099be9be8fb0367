-- ===== src/Memstore.antt =====
-- spider/memstore/store.go: the key-value storage that the handlers of one task share.
pub mod Value
pub mod Signed
pub mod Unsigned
pub mod Other
pub mod Store
pub mod Getters
