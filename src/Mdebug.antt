-- ===== src/Mdebug.antt =====
-- The mdebug component: esp-mdf/components/mdebug, the debug log.
pub mod Flash
mod Tests
