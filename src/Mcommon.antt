-- ===== src/Mcommon.antt =====
-- The mcommon component: esp-mdf/components/mcommon.
pub mod Err
pub mod EventLoop
pub mod InfoStore
pub mod Mem
mod Tests
