-- ===== src/Tests.antt =====
-- Runs of the theorems on concrete data.
mod Buffers
mod Messages
mod Queues
mod Sessions
mod Maps
mod Services
mod Streams
mod Persisted
mod Objects
mod Views
mod Endings
mod Atomics
mod Others
mod Threads
mod Addresses
