-- ===== src/Tests.antt =====
-- A household on which the tests of the modules below run: a tablet and a laptop, a bedtime and a
-- daily limit, a guest network.
pub mod Household
mod Devices
mod Network
mod Alarms
mod Nodes
mod Ports
mod Domain
mod Login
mod Access
pub mod Files
mod Service
