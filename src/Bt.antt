-- ===== src/Bt.antt =====
-- The Bluetooth stack of src/main/include/blue/bt_main.c.
pub mod Codes
pub mod Stream
pub mod State
pub mod Config
pub mod Signal
pub mod Sdp
pub mod Obex
pub mod Put
pub mod Handler
pub mod Hci
pub mod Advert
pub mod Framing
pub mod Receive
pub mod Protocol
pub mod Transport
pub mod Start
pub mod Entry
