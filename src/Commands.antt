-- ===== src/Commands.antt =====
-- commands/: what a command is, which keys it names, whether this node may run it, and its dispatch.
pub mod Command
pub mod Route
pub mod Registry
pub mod Handlers
pub mod ClusterCommand
pub mod Table
pub mod Tests
