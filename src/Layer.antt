-- ===== src/Layer.antt =====
-- pkg/server/customapi/layer.go: how the master answers for a layer. Its children model the choice of
-- a node, the check of the cached locations, and the two handlers.
pub mod Nodes
pub mod Cached
pub mod Download
pub mod Info
pub mod Tests
