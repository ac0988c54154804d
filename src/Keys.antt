-- ===== src/Keys.antt =====
-- internal/redis/keys: the Redis keys of namespaces, queues, exchanges, messages, consumers and
-- workers, built by joining parts with a colon; and pkg/redis/validate_key.go, the names they hold.
mod Build
mod Validate
mod Split
pub mod Injective
pub mod Kinds
unfoldable pub use Build.*
unfoldable pub use Validate.*
unfoldable pub use Split.*
