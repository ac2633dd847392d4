-- ===== src/Tests.antt =====
-- The theorems at concrete inputs.
mod Data
mod Orders
mod Handlers
mod Buses
mod Databases
mod Edges
