-- ===== src/Spider.antt =====
-- spider/: the context of a task, the retry loop, the registry of item channels and the factory.
pub mod Context
pub mod Factory
pub mod Registry
pub mod Packing
pub mod Items
pub mod Submitting
