-- ===== src/Samples.antt =====
-- Runs of the definitions on concrete inputs.
pub mod Rig
pub mod Pki
mod Process
pub mod Setup
mod Bridge
mod Command
mod Params
mod Routes
mod Creds
mod Config
pub mod Relay
mod Tunnel
pub mod Status
mod Races
mod Session
