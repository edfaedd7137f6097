-- ===== src/Mespnow.antt =====
-- The mespnow component: esp-mdf/components/mespnow.
pub mod Frame
pub mod State
pub mod Receive
pub mod Write
pub mod Read
pub mod Peer
pub mod Setup
mod Tests
pub mod Channel
