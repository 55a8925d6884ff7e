-- ===== src/Kernel/Vfs/Tree.antt =====
-- What holds of the vnodes of kernel/fs/vfs.c between two calls.
pub mod Siblings
pub mod WellFormed
pub mod Edit
pub mod Reach
pub mod Keep
pub mod Rooted
pub mod Rename
pub mod Find
pub mod Mkdir
