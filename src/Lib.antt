-- ===== src/Lib.antt =====
-- Verification library of go-redis-smq, a message queue on Redis in Go.
--
-- The program keeps queues, exchanges and messages in Redis. Producers publish to queues, or to
-- exchanges that route to the queues that are bound to them; consumers take messages from queues.
-- All state is in Redis and is changed by many processes: by single commands, by optimistic
-- transactions under WATCH, and by Lua scripts, which Redis runs one at a time.
--
-- Parts and files
--   Prelude: conditionals, options and results, lists measured by native numbers, texts as lists of
--     code points, and the decimal numbers that strconv.Itoa and strconv.Atoi write and read.
--   Keys: internal/redis/keys (the key builders, by their Go names in snake case) in Build, and
--     pkg/redis/validate_key.go in Validate; Split, Kinds and Injective show that keys do not collide.
--   Redis: HashSets is the interface of the commands on hashes and sets, with the documented effect
--     of each on each reply; Memory implements it by lists; Transaction is `WithTransaction` of
--     internal/redis/tx.go.
--   Exchange: pkg/exchange and internal/exchange. Params has parameters, properties and decoding;
--     Store has `Store`, `Validator` and `Lookup`; Token and Pattern have the patterns of topic
--     exchanges; Routed has what `DirectStore` and `TopicStore` share, with its proofs below it;
--     Direct, Topic and Fanout have the operations of the three stores.
--   QueueState: pkg/queue/state.go, internal/queue/state.go and state_manager.go, and the script
--     internal/redis/scripts/scripts/core/set-queue-state.lua in Script. Manager has the operations,
--     Created what the creation of a queue leaves, History what holds between them.
--   Scheduling: `NextScheduledTimestamp` of internal/message/envelope.go, on the fields of
--     pkg/message that it reads and writes; Publisher has the rounds of
--     internal/consumer/scheduled_publisher.go on one message, with its decoding in
--     internal/message/codec.go. The next tick of a cron expression is a parameter.
--   Consumer: internal/consumer/unacknowledge.go, with the tests of internal/message/envelope.go and
--     the decoding that it rests on; Retries and Expiry have what follows.
--   Delivery: the life of a message in its queue. Entries has the queue's lists and sorted sets with the
--     Redis commands on them, Data the hashes, Publish `dispatch` of internal/producer with the script
--     publish-message, Checkout and Dequeue internal/consumer/dequeue_message.go with checkout-message
--     and zpoplpush, Acknowledge batch_acker.go with acknowledge-message, Unacknowledge
--     message_unacknowledger.go with unacknowledge-message, Requeue and Scheduled the scripts of the
--     three workers, Workers the rounds of the requeuers. Calls puts them together; Placed, Kept,
--     Counted and Balanced have what every call keeps, Refusals and Stranded what a queue that refuses does, Order the order
--     in which messages are taken.
--   ConsumerGroups: internal/queue/consumer_group.go with the script delete-consumer-group, on the queue of
--     Delivery; Stranded has what becomes of a group's messages.
--   Producer: `Produce` of internal/producer/producer.go on several queues, with
--     internal/producer/pubsub_resolver.go in Resolver; Plan has where a message is sent.
--   Batches: the buffers of internal/consumer/batch_acker.go and batch_unacker.go, for either.
--   Messages: `State` of pkg/message/state.go, and its codec in internal/message/codec.go.
--   RateLimits: pkg/queue/ratelimit.go, the script check-queue-rate-limit and the guard that it is of
--     `Dequeue`; Store has internal/ratelimit with its two scripts, Window how much is taken, Unguarded
--     what becomes of a rate limit that is set.
--   Locks: internal/util/lock/lock.go with the scripts in redis_lock, on the locks of one key.
--   Tests: runs of the code on concrete data, and the theorems at concrete inputs.
--
-- How the code corresponds
--   A function that changes Redis takes the data and returns them changed, with its result; an error
--   is a constructor of the component's `Error`. An exchange operation is generic in the interface
--   `HashSets` and in the encoder `Json`, of which only is asked that it reads what it wrote. The
--   errors of the connection itself are left out. `others` are the writes of other clients during the
--   attempts of a transaction, between its reads and EXEC: those that touch a watched key and make
--   EXEC fail, and those that EXEC lets pass. The code's own bounds, 5 attempts for the operations
--   and 3 for `Create`, are the bounds here. What EXEC lets pass leaves the watched keys as they are;
--   a theorem says where it needs more.
--   The state manager reads twice and then runs a script, and any writes of other clients may come
--   between. Its clock is an argument. A transition's metadata are an opaque text.
--   A script runs alone, so each call of Delivery is one step, and a history is a sequence of calls of
--   all producers, consumers and workers on one queue. Its lists and sets are one sequence of entries,
--   each with its key. Message ids are numbers, and members of a sorted set with the same score are in
--   the order of these. A hash has the fields that the scripts read and write; what encodes and decodes
--   an envelope is a parameter, and so are the envelopes that a worker has decoded. `Dequeue` has its
--   rate limit in RateLimits, where what encoding/json reads is a parameter; expiry of lists is left to Redis, and logs and events are left out.
--   `Acquire` runs on fuel, one more than the attempts that its strategy allows, which is proved enough
--   when it bounds them; what each attempt finds is an argument.
--   Numbers that are stored are not negative, and Atoi is modelled on these. The regular expression
--   of topic patterns is the automaton in Token, proved equal to its description.
--
-- Not modelled: the storage and deletion of messages, the run of handlers,
-- purge jobs, namespaces, configuration
-- and event buses.
pub mod Prelude
pub mod Keys
pub mod Redis
pub mod Batches
pub mod Consumer
pub mod Delivery
pub mod Locks
pub mod Messages
pub mod Producer
pub mod RateLimits
pub mod Exchange
pub mod ConsumerGroups
pub mod QueueState
pub mod Tests
pub mod Scheduling
