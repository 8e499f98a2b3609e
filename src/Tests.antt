-- ===== src/Tests.antt =====
-- Runs of the program's definitions at concrete inputs.
pub mod Data
mod Access
mod Api
mod Interleaved
mod Broker
mod Clients
mod Delivery
mod Programs
mod Starts
mod Tables
pub mod Wire
mod Sent
mod Ends
