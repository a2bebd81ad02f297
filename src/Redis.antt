-- ===== src/Redis.antt =====
-- gateway/include/RedisClient.h and gateway/src/RedisClient.cpp. The Redis server and hiredis are a
-- parameter: a state, a function for each command, and EVAL. The Lua scripts are translated.
pub mod Users
pub mod Queues
pub mod Store
pub mod Fifo
pub mod Kept
use distributed_im.Common.{
  ℕ, suc, ◌+◌, Bool, true, false, ◌&&◌, not, List, [], ◌∷◌, ◌++◌, Option, none, some, Bytes,
  is_empty, drop, take, length, ltb, leb, ◌==◌, if◌then◌else◌,
}
use distributed_im.Common.Text.{codes, find_text}
use distributed_im.Common.Decimal.{ℤ, pos, negsuc, to_decimal, stoi}

-- `redisReply`; `lost` is the null pointer. An element of an array that is no string is `none`.
pub data Reply : Type 0 where
  lost nil error_reply : Reply
  integer : ℕ → Reply
  string : Bytes → Reply
  array : List (Option Bytes) → Reply

-- hiredis and the server. `is_connected` is `ctx_ != nullptr && ctx_->err == 0`.
pub record RedisServer : Type 1 where
  pub State : Type 0
  pub is_connected : State → Bool
  pub sadd : Bytes → Bytes → State → Reply × State
  pub srem : Bytes → Bytes → State → Reply × State
  pub sismember : Bytes → Bytes → State → Reply × State
  pub smembers : Bytes → State → Reply × State
  pub srandmember : Bytes → State → Reply × State
  pub scard : Bytes → State → Reply × State
  pub hset : Bytes → Bytes → Bytes → State → Reply × State
  pub hget : Bytes → Bytes → State → Reply × State
  pub rpush : Bytes → Bytes → State → Reply × State
  pub lpop : Bytes → State → Reply × State
  pub del : Bytes → State → Reply × State
  pub exists : Bytes → State → Reply × State
  pub incr : Bytes → State → Reply × State
  pub eval : (State → Reply × State) → State → Reply × State

-- `checkReply`
unfoldable pub check_reply : Reply → Bool
check_reply lost = false
check_reply error_reply = false
check_reply _ = true

unfoldable pub user_key : Bytes → Bytes
user_key username = codes "user:" ++ username

unfoldable pub queue_key : Bytes → Bytes
queue_key target = codes "msg_queue:" ++ target

abbrev pub online_users : Bytes
online_users = codes "online_users"

abbrev pub pending_msgs : Bytes
pending_msgs = codes "pending_msgs"

-- The scripts' `ARGV[2] .. ':' .. ARGV[3]`, over `std::to_string` of the two numbers.
unfoldable pub device_key : ℕ → ℕ → Bytes
device_key gateway_id fd = to_decimal gateway_id ++ (b':' ∷ to_decimal fd)

-- A text as `%s` in a command of hiredis and a `std::string` made of a `char *` take it: up to the first zero byte.
unfoldable pub c_str : Bytes → Bytes
c_str [] = []
c_str (c ∷ s) = let rest = c_str s in if c == 0 then [] else c ∷ rest

unfoldable pub c_strs : List Bytes → List Bytes
unfolding c_str
c_strs [] = []
c_strs (s ∷ xs) = c_str s ∷ c_strs xs

-- The strings among the elements of an array reply.
unfoldable pub strings : List (Option Bytes) → List Bytes
strings [] = []
strings (none ∷ xs) = strings xs
strings (some s ∷ xs) = s ∷ strings xs

-- No strings in a reply that is no array.
unfoldable pub array_strings : Reply → List Bytes
unfolding strings
array_strings (array xs) = strings xs
array_strings _ = []

unfoldable pub is_integer : Reply → Bool
is_integer (integer n) = true
is_integer _ = false

unfoldable pub integer_is : ℕ → Reply → Bool
integer_is k (integer n) = n == k
integer_is k _ = false

unfoldable pub is_one : Reply → Bool
unfolding integer_is
is_one r = integer_is 1 r

module _ (server : RedisServer) where
  open server use {
    State, is_connected, sadd, srem, sismember, smembers, srandmember, scard, hset, hget, rpush,
    lpop, del, exists, incr, eval,
  }

  -- `redis.call`: an error reply ends the script with that error.
  abbrev pub call :
      (State → Reply × State) → (Reply → State → Reply × State) → State → Reply × State
  call command k s =
      let (r, s') = command s in elim r [ error_reply ↦ (error_reply, s') | other ↦ k other s' ]

  abbrev pub finish : Reply → State → Reply × State
  finish r s = (r, s)

  unfoldable pub login_script : Bytes → Bytes → Bytes → State → Reply × State
  login_script key username device =
      call (sadd key device) λ _. call (sadd online_users username) λ _. finish (integer 1)

  unfoldable pub logout_script : Bytes → Bytes → Bytes → State → Reply × State
  unfolding integer_is
  logout_script key username device = call (srem key device) λ _. call (scard key) λ n.
      if integer_is 0 n
      then call (srem online_users username) (λ _. finish (integer 1))
      else finish (integer 1)

  unfoldable pub push_script : Bytes → Bytes → Bytes → State → Reply × State
  push_script key target msg =
      call (rpush key msg) λ _. call (sadd pending_msgs target) λ _. finish (integer 1)

  -- `#members > 0`
  unfoldable pub drain_script : State → Reply × State
  drain_script = call (smembers pending_msgs) λ members. elim members [
    | array (x ∷ xs) ↦ call (del pending_msgs) (λ _. finish (array (x ∷ xs)))
    | other ↦ finish other
  ]
