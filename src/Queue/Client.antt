-- ===== src/Queue/Client.antt =====
-- app/queue/client.py: the Redis client. A timeout is in milliseconds, as Redis counts a BLOCK.
use txn_event_processor.Prelude.{ℕ, String, Bool, true}
use txn_event_processor.Action.{Action}

-- The arguments of `Redis.from_url`.
pub record RedisOptions : Type 0 where
  pub url : String
  pub decode_responses : Bool
  pub protocol : ℕ
  pub socket_timeout_ms : ℕ

unfoldable pub create_redis :
    {W : Type 0} → (RedisOptions → Action W (Unit {0})) → String → ℕ → Action W (Unit {0})
create_redis from_url redis_url socket_timeout_ms = from_url (record {
  url = redis_url;
  decode_responses = true;
  protocol = 2;
  socket_timeout_ms = socket_timeout_ms;
})

-- The default of `socket_timeout`.
abbrev pub default_timeout_ms : ℕ
default_timeout_ms = 5000

unfoldable pub close_redis : {W : Type 0} → Action W (Unit {0}) → Action W (Unit {0})
close_redis aclose = aclose
