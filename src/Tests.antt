-- ===== src/Tests.antt =====
-- Runs of the model and instances of the theorems at concrete inputs.
mod Runs
mod Parsing
mod RoundTrips
mod Clients
mod Replies
mod Capi
mod InOrder
mod Connections
mod Lifetime
mod Arriving
mod Threads
mod Memory
mod Texts
