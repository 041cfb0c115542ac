-- ===== src/Tests.antt =====
-- The theorems at concrete inputs: a hash table that behaves as documented, a state with two
-- peers, and an application of each theorem.
mod Table
mod Example
mod Bytes
mod List
mod Traffic
mod Config
mod Startup
mod Old
mod Sockets
mod Growth
mod Delivery
mod Peers
mod Network
mod Back
mod Heartbeat
mod Schedule
