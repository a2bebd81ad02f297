-- ===== src/Redis/Queues.antt =====
-- gateway/src/RedisClient.cpp, message queues of users who are not on the sending gateway.
use distributed_im.Common.{
  ℕ, zero, suc, Bool, true, false, ◌||◌, not, List, [], ◌∷◌, Bytes, is_empty, if◌then◌else◌,
}
use distributed_im.Redis.{
  string, RedisServer, check_reply, queue_key, c_str, c_strs, push_script, drain_script,
  array_strings,
}

module _ (server : RedisServer) where
  open server use {State, is_connected, lpop, eval}

  unfoldable pub push_message : Bytes → Bytes → State → Bool × State
  unfolding c_str
  push_message target msg s =
      let (r, s') = eval (push_script server (c_str (queue_key target)) (c_str target) msg) s in
      if not (is_connected s) || is_empty target
      then (false, s)
      else if check_reply r
      then (true, s')
      else (false, s')

  -- LPOP until it gives no string, with fuel.
  unfoldable pub pop_loop : ℕ → Bytes → State → List Bytes × State
  pop_loop zero key s = ([], s)
  pop_loop (suc fuel) key s =
      let (r, s1) = lpop key s in
      elim r [
        | string msg ↦ let (msgs, s2) = pop_loop fuel key s1 in (msg ∷ msgs, s2)
        | _ ↦ ([], s1)
      ]

  unfoldable pub pop_messages : ℕ → Bytes → State → List Bytes × State
  unfolding pop_loop
  pop_messages fuel target s =
      let popped = pop_loop fuel (queue_key target) s in
      if not (is_connected s) || is_empty target then ([], s) else popped

  unfoldable pub drain_pending_users : State → List Bytes × State
  unfolding array_strings c_strs
  drain_pending_users s =
      let (r, s') = eval (drain_script server) s in
      if not (is_connected s) then ([], s) else (c_strs (array_strings r), s')
