-- ===== src/Bt/Framing.antt =====
-- What the Bluetooth specification calls an ACL data packet with one L2CAP frame, as the
-- transport of bt_main.c wants it: the length of the rest in front, high byte first.
pub mod Format
pub mod Signals
pub mod Checked
pub mod Loop
pub mod Obex
pub mod Command
pub mod Discovery
pub mod Serve
pub mod Traffic
pub mod Delivered
