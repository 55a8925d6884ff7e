-- ===== src/Kernel.antt =====
-- The kernel (kernel/): byte routines, the file system in memory, tasks, physical pages, page tables, the
-- window of the heap, and the system calls.
pub mod String
pub mod Vfs
pub mod Task
pub mod Heap
pub mod Syscall
pub mod Pages
pub mod Paging
