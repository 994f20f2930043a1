-- ===== src/Env.antt =====
-- What the program calls and does not implement: the redis server behind hiredis, the POSIX
-- read/write lock and libuuid, over one abstract state of the world.
pub mod Frame
pub mod Tangle
pub mod Iota
pub mod Laws
pub mod Memory
pub mod Json
pub mod Trits
use tangle_accelerator.Base.{ℤ, ℕ, Bool, Option, Bytes}

-- The commands that utils/cache/backend_redis.c sends.
pub data Command : Type 0 where
  del : Bytes → Command
  get : Bytes → Command
  -- SET key value [EX timeout] NX
  set_nx : Bytes → Bytes → Option ℕ → Command
  lpush : Bytes → Bytes → Command
  lindex : Bytes → ℕ → Command
  llen : Bytes → Command
  lpop : Bytes → Command

-- `redisReply`: its `type`, and the member that the type gives a meaning.
pub data Reply : Type 0 where
  string : Bytes → Reply
  integer : ℕ → Reply
  nil : Reply
  status : Reply
  error : Reply

-- The operations are non-null functions of the state. A lock operation and what else answers an int
-- gives `true` for a nonzero result, that is for failure.
pub record Env : Type 1 where
  pub World : Type 0
  pub redis : Command → World → Reply × World
  pub tryrdlock : World → Bool × World
  pub trywrlock : World → Bool × World
  pub unlock : World → Bool × World
  -- uuid_generate_random and uuid_unparse: the text written
  pub new_uuid : World → Bytes × World
  -- iota_service_query with the getNodeInfo command, at a host and a port: the response text, or `none`
  -- for a result other than RC_OK
  pub query_node : Bytes → ℕ → World → Option Bytes × World

-- cJSON, as far as a response is read: cJSON_Parse, and the integer of a member that is a number.
pub record Cjson : Type 1 where
  pub Json : Type 0
  pub parse : Bytes → Option Json
  pub number_item : Json → Bytes → Option ℤ
