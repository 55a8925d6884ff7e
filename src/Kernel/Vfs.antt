-- ===== src/Kernel/Vfs.antt =====
-- The in-memory file system (kernel/fs/vfs.c).
pub mod State
pub mod Path
pub mod Nodes
pub mod Content
pub mod Ops
pub mod Tar
pub mod Tree
mod Tests
