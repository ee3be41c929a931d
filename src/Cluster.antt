-- ===== src/Cluster.antt =====
-- Hash slots and the cluster layout (cluster/slot.go, cluster/config.go).
pub mod Slot
pub mod Layout
pub mod Parse
pub mod Tests
