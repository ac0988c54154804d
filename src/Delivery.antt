-- ===== src/Delivery.antt =====
-- The life of a message in its queue: publication, consumption, acknowledgement, retries and due
-- messages, by the scripts of internal/redis/scripts and the Go code that calls them.
pub mod Entries
pub mod Counting
pub mod Data
pub mod Publish
pub mod Checkout
pub mod Unacknowledge
pub mod Acknowledge
pub mod Dequeue
pub mod Requeue
pub mod Scheduled
pub mod Placed
pub mod Counted
pub mod Balanced
pub mod Kept
pub mod Workers
pub mod Calls
pub mod Refusals
pub mod Stranded
pub mod Order
