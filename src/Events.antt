-- ===== src/Events.antt =====
-- The steer channel of services/orchestrator/events.py: the keys `labmate:steer:<task_id>` of Redis,
-- `write_steer` and `read_and_clear_steer`. A call of Redis is served, refused before it has an
-- effect, or carried out with its reply lost; a key also expires.
use labmate.Common.{
  List, [], ◌∷◌, ◌++◌, Option, none, some, Text, codes, Dict, lookup, insert, remove,
}
pub mod Steers
mod Examples

-- What a call of Redis comes to.
pub data RedisReply : Type 0 where
  served : RedisReply
  refused : RedisReply
  lost : RedisReply

abbrev pub steer_key : Text → Text
steer_key task = codes "labmate:steer:" ++ task

-- `write_steer`: a pending steer is overwritten, and an exception is logged.
unfoldable pub write_steer : RedisReply → Text → Text → Dict Text → Dict Text
write_steer RedisReply.served task text redis = insert (steer_key task) text redis
write_steer RedisReply.refused task text redis = redis
write_steer RedisReply.lost task text redis = insert (steer_key task) text redis

-- `read_and_clear_steer`, a GETDEL: what it returns, and the keys that remain.
unfoldable pub read_and_clear_steer : RedisReply → Text → Dict Text → Option Text × Dict Text
read_and_clear_steer RedisReply.served task redis =
    (lookup (steer_key task) redis, remove (steer_key task) redis)
read_and_clear_steer RedisReply.refused task redis = (none, redis)
read_and_clear_steer RedisReply.lost task redis = (none, remove (steer_key task) redis)

-- What happens on the channel: a steer is written, a turn of a task reads its steer, or
-- STEER_TTL runs out for a key.
pub data Step : Type 0 where
  write : RedisReply → Text → Text → Step
  read : RedisReply → Text → Step
  expire : Text → Step

unfoldable pub perform : Step → Dict Text → Dict Text
perform (Step.write r task text) redis = write_steer r task text redis
perform (Step.read r task) redis = (read_and_clear_steer r task redis).1
perform (Step.expire task) redis = remove (steer_key task) redis
