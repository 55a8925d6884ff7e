-- ===== src/Userland/Pablo.antt =====
-- Pablo, the service supervisor (userland/pablo/).
pub mod Text
pub mod Service
pub mod Config
pub mod Supervisor
mod Tests
