-- ===== src/Libc.antt =====
-- The C library (lib/libc/).
pub mod Result
pub mod Allocator
pub mod Format
pub mod Strings
