-- ===== src/Mlink.antt =====
-- The mlink component: esp-mdf/components/mlink.
pub mod Trigger
mod Tests
pub mod Keys
pub mod Json
pub mod Parse
pub mod Handle
pub mod Device
pub mod Status
pub mod Requests
