-- ===== src/Closet.antt =====
-- The controllers of the closet: the water circuit, the timed routines of the main loop, the
-- sensors on the I2C bus, the fan, and the Wi-Fi station.
pub mod Gpio
pub mod Water
pub mod Fan
pub mod Lights
pub mod Interlock
pub mod Routines
pub mod Cycle
pub mod Modem
pub mod Sensors
pub mod Range
pub mod Station
pub mod Retry
pub mod Options
pub mod Credentials
pub mod Wifi
