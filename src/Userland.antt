-- ===== src/Userland.antt =====
-- The programs outside the kernel (userland/).
pub mod Pablo
