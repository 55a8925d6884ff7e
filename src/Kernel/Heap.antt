-- ===== src/Kernel/Heap.antt =====
-- The kernel's heap (kernel/mm/heap.c).
pub mod Window
mod Tests
