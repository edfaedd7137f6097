-- ===== src/Mupgrade.antt =====
-- The mupgrade component: esp-mdf/components/mupgrade.
pub mod Err
pub mod Kmp
pub mod Check
pub mod Progress
pub mod Root
pub mod Send
pub mod Download
pub mod Node
mod Tests
