-- ===== src/Exchange.antt =====
-- internal/exchange: direct, fanout and topic exchanges.
pub mod Token
pub mod Pattern
pub mod Params
pub mod Store
pub mod Routed
pub mod Direct
pub mod Topic
pub mod Fanout
