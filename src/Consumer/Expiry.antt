-- ===== src/Consumer/Expiry.antt =====
-- internal/message/codec.go: the time to live of a message that is decoded.
use go_redis_smq.Prelude.{ℕ, ◌+◌, ◌*◌, ◌≡◌, ◌<◌, false, arith}
use go_redis_smq.Scheduling.{milliseconds}
use go_redis_smq.Consumer.{Envelope, is_expired, rebuild_envelope}

-- A message whose TTL is a positive number of milliseconds is not expired before its TTL has passed
-- since it was decoded, whenever it was created.
pub is_expired-rebuild_envelope :
    (default_ttl now later : ℕ) (e : Envelope)
    → 0 < milliseconds e.ttl
    → later < now + milliseconds e.ttl * 1000000
    → is_expired later (rebuild_envelope default_ttl now e) ≡ false
unfolding is_expired rebuild_envelope
is_expired-rebuild_envelope default_ttl now later e h lt = ground (arith, h, lt)
