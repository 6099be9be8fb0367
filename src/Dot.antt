-- ===== src/Dot.antt =====
-- dot/: the parts of the process that the spiders share.
pub mod MqWriter
pub mod Items
