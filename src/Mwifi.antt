-- ===== src/Mwifi.antt =====
-- The mwifi component: esp-mdf/components/mwifi, messages over the mesh.
pub mod Err
pub mod Packet
pub mod Fragment
pub mod Receive
pub mod RootRead
pub mod Transmit
pub mod Write
pub mod Config
pub mod Lifecycle
pub mod Events
pub mod Start
pub mod Reach
pub mod NodeRead
pub mod RootWrite
mod Tests
