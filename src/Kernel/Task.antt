-- ===== src/Kernel/Task.antt =====
-- Tasks and what they hold open (kernel/task.c).
pub mod Pipe
pub mod State
pub mod Schedule
pub mod Files
pub mod Descriptors
pub mod Life
mod Tests
