-- ===== src/Tests.antt =====
-- Runs of the code on concrete data, and each theorem at a concrete input.
mod Samples
mod Names
mod Bindings
mod Deletion
mod Fanouts
mod States
mod Schedules
mod Failures
mod Deliveries
mod Clients
mod Producers
mod Batching
mod Limits
mod Grouping
