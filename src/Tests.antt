-- ===== src/Tests.antt =====
-- Runs of the code on concrete inputs, and the theorems at them.
mod Packets
mod Runs
mod ListQueue
mod Devices
mod Commands
mod Witnesses
mod WifiFile
mod Rounds
mod Telemetry
mod Program
mod Channel
mod Transfers
mod Waiting
mod Provisioning
