-- ===== src/Redis/Store.antt =====
-- gateway/src/RedisClient.cpp, hashes, sets and keys.
use distributed_im.Common.{ℕ, Bool, false, List, [], Option, none, some, Bytes, ltb, if◌then◌else◌}
use distributed_im.Redis.{
  Reply, integer, string, RedisServer, c_str, check_reply, is_integer, is_one, array_strings,
}

unfoldable pub reply_string : Reply → Bytes
reply_string (string s) = s
reply_string _ = []

unfoldable pub reply_count : Reply → ℕ
reply_count (integer n) = n
reply_count _ = 0

-- The counter after INCR; `none` is -1.
unfoldable pub reply_value : Reply → Option ℕ
reply_value (integer n) = some n
reply_value _ = none

unfoldable pub is_positive : Reply → Bool
is_positive (integer n) = ltb 0 n
is_positive _ = false

module _ (server : RedisServer) where
  open server use {
    State, is_connected, sadd, srem, sismember, smembers, scard, hset, hget, del, exists, incr,
  }

  -- A command on a connected client, read by `read`; `other` where it is not connected.
  abbrev pub ask : {A : Type 0} → (State → Reply × State) → (Reply → A) → A → State → A × State
  ask command read other s =
      let (r, s') = command s in if is_connected s then (read r, s') else (other, s)

  unfoldable pub set_hash_field : Bytes → Bytes → Bytes → State → Bool × State
  unfolding c_str
  set_hash_field key field value =
      ask (hset (c_str key) (c_str field) (c_str value)) check_reply false

  unfoldable pub get_hash_field : Bytes → Bytes → State → Bytes × State
  unfolding c_str
  get_hash_field key field = ask (hget (c_str key) (c_str field)) reply_string []

  unfoldable pub set_add : Bytes → Bytes → State → Bool × State
  unfolding c_str
  set_add key member = ask (sadd (c_str key) (c_str member)) is_integer false

  unfoldable pub set_remove : Bytes → Bytes → State → Bool × State
  unfolding c_str
  set_remove key member = ask (srem (c_str key) (c_str member)) is_integer false

  unfoldable pub set_is_member : Bytes → Bytes → State → Bool × State
  unfolding c_str
  set_is_member key member = ask (sismember (c_str key) (c_str member)) is_one false

  unfoldable pub set_members : Bytes → State → List Bytes × State
  unfolding c_str
  set_members key = ask (smembers (c_str key)) array_strings []

  unfoldable pub set_size : Bytes → State → ℕ × State
  unfolding c_str
  set_size key = ask (scard (c_str key)) reply_count 0

  unfoldable pub delete_key : Bytes → State → Bool × State
  unfolding c_str
  delete_key key = ask (del (c_str key)) is_positive false

  unfoldable pub key_exists : Bytes → State → Bool × State
  unfolding c_str
  key_exists key = ask (exists (c_str key)) is_one false

  unfoldable pub incr_counter : Bytes → State → Option ℕ × State
  unfolding c_str
  incr_counter key = ask (incr (c_str key)) reply_value none
