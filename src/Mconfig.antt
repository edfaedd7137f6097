-- ===== src/Mconfig.antt =====
-- The mconfig component: esp-mdf/components/mconfig, the configuration of devices.
pub mod Queue
