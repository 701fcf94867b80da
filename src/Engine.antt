-- ===== src/Engine.antt =====
-- crates/engine/src: the store of streamed accounts and the registry of swappable pools, which the
-- engine feeds from a cold start and from a stream.
pub mod Store
pub mod Registry
