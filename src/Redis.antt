-- ===== src/Redis.antt =====
-- The Redis server, as far as the library relies on it: an interface for each group of commands
-- that a component uses. A component takes the interface as a parameter.
pub mod HashSets
pub mod Memory
pub mod Transaction
