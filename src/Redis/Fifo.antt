-- ===== src/Redis/Fifo.antt =====
-- Offline messages come out in the order in which they went in, over a server that keeps lists as Redis does.
use distributed_im.Common.{
  ℕ, zero, suc, ◌+◌, ◌<◌, ◌≡◌, ◌≢◌, refl, ap, ◌∙◌, inl, inr, true, false, List, [], ◌∷◌, ◌++◌,
  Option, some, Bytes, length, is_empty, get_or, length-append, arith, Bool-cases,
}
use distributed_im.Redis.{
  Reply, lost, nil, error_reply, integer, string, array, RedisServer, check_reply, call, finish,
  queue_key, c_str, pending_msgs, push_script,
}
use distributed_im.Redis.Queues.{push_message, pop_loop, pop_messages}

-- What Redis documents of lists: `queue` is the list under a key, empty for a key that is not there, and
-- `none` for a key of another kind.
pub record ListServer (server : RedisServer) : Type 0 where
  pub queue : Bytes → server.State → Option (List Bytes)
  pub eval-script :
      (script : server.State → Reply × server.State) (s : server.State)
      → server.eval script s ≡ script s
  pub lpop-empty :
      (key : Bytes) (s : server.State)
      → queue key s ≡ some []
      → ((server.lpop key s).0 ≡ nil) × (queue key (server.lpop key s).1 ≡ some [])
  pub lpop-first :
      (key x : Bytes) (xs : List Bytes) (s : server.State)
      → queue key s ≡ some (x ∷ xs)
      → ((server.lpop key s).0 ≡ string x) × (queue key (server.lpop key s).1 ≡ some xs)
  pub rpush-last :
      (key msg : Bytes) (xs : List Bytes) (s : server.State)
      → queue key s ≡ some xs
      → ((server.rpush key msg s).0 ≡ integer (length xs + 1))
        × (queue key (server.rpush key msg s).1 ≡ some (xs ++ (msg ∷ [])))
  pub sadd-other :
      (key set member : Bytes) (s : server.State)
      → set ≢ key
      → queue key (server.sadd set member s).1 ≡ queue key s
  pub srem-other :
      (key set member : Bytes) (s : server.State)
      → set ≢ key
      → queue key (server.srem set member s).1 ≡ queue key s
  pub scard-queue :
      (key set : Bytes) (s : server.State) → queue key (server.scard set s).1 ≡ queue key s
  pub smembers-queue :
      (key set : Bytes) (s : server.State) → queue key (server.smembers set s).1 ≡ queue key s
  pub srandmember-queue :
      (key set : Bytes) (s : server.State) → queue key (server.srandmember set s).1 ≡ queue key s

module _ (server : RedisServer) (lists : ListServer server) where
  open server use {State, is_connected}
  open lists use {queue}

  pop_loop_lem :
      (fuel : ℕ) (key : Bytes) (xs : List Bytes) (s : State)
      → queue key s ≡ some xs
      → length xs < fuel
      → let (msgs, s') = pop_loop server fuel key s in (msgs ≡ xs) × (queue key s' ≡ some [])
  unfolding pop_loop
  pop_loop_lem zero key xs s e h = absurd (omega arith)
  pop_loop_lem (suc fuel) key [] s e h =
      let (reply, left) = lists.lpop-empty key s e in rw (reply, pop_loop) (refl, left)
  pop_loop_lem (suc fuel) key (x ∷ xs) s e h =
      let (reply, left) = lists.lpop-first key x xs s e in
      let (msgs, done) = pop_loop_lem fuel key xs (server.lpop key s).1 left (omega arith) in
      rw (reply, pop_loop) (ap (◌∷◌ x) msgs, done)

  pending≢queue : (target : Bytes) → pending_msgs ≢ queue_key target
  unfolding queue_key
  pending≢queue target e = absurd (omega (arith, ap (λ l. get_or l 0 0) e))

  last_call :
      (r : Reply) (s s' : State)
      → (call server (λ t. (r, s')) (λ other. finish server (integer 1)) s).1 ≡ s'
  last_call lost s s' = refl
  last_call nil s s' = refl
  last_call error_reply s s' = refl
  last_call (integer n) s s' = refl
  last_call (string t) s s' = refl
  last_call (array ts) s s' = refl

  push_script-queue :
      (target msg : Bytes) (xs : List Bytes) (s : State)
      → queue (queue_key target) s ≡ some xs
      → queue (queue_key target) (push_script server (queue_key target) target msg s).1
        ≡ some (xs ++ (msg ∷ []))
  unfolding push_script
  push_script-queue target msg xs s e =
      let (reply, pushed) = lists.rpush-last (queue_key target) msg xs s e in
      let s1 = (server.rpush (queue_key target) msg s).1 in
      let kept =
        lists.sadd-other (queue_key target) pending_msgs target s1 (pending≢queue target) in
      let set = server.sadd pending_msgs target s1 in
      let rest : Reply → State → Reply × State =
        λ r. call server (server.sadd pending_msgs target) (λ other. finish server (integer 1)) in
      ap (λ r. queue (queue_key target) (call server (λ t. (r, s1)) rest s).1) reply
      ∙ ap (queue (queue_key target)) (last_call set.0 s1 set.1)
      ∙ kept
      ∙ pushed

  c_str-queue_key :
      (target : Bytes) → c_str target ≡ target → c_str (queue_key target) ≡ queue_key target
  unfolding queue_key c_str
  c_str-queue_key target e = ap queue_key e

  push_message-queue :
      (target msg : Bytes) (xs : List Bytes) (s : State)
      → is_empty target ≡ false
      → c_str target ≡ target
      → queue (queue_key target) s ≡ some xs
      → is_connected s ≡ true
      → queue (queue_key target) (push_message server target msg s).1 ≡ some (xs ++ (msg ∷ []))
  unfolding push_message
  push_message-queue target msg xs s named whole e on =
      let script = push_script server (queue_key target) target msg in
      let same = lists.eval-script script s in
      let key = c_str-queue_key target whole in
      let done =
        ap (λ r. queue (queue_key target) r.1) same ∙ push_script-queue target msg xs s e in
      elim (Bool-cases (check_reply (server.eval script s).0)) [
        | inl ok ↦ rw (push_message, key, whole, on, named, ok) done
        | inr bad ↦ rw (push_message, key, whole, on, named, bad) done
      ]

  -- On a connected client, a message that is pushed for a user whose name has no zero byte, and popped afterwards, with fuel
  -- for one message more than are waiting, comes out behind all that were waiting, in their order, and nothing waits any more.
  pub pop_messages-push_message :
      (fuel : ℕ) (target msg : Bytes) (xs : List Bytes) (s : State)
      → is_empty target ≡ false
      → c_str target ≡ target
      → queue (queue_key target) s ≡ some xs
      → is_connected s ≡ true
      → is_connected (push_message server target msg s).1 ≡ true
      → length xs + 1 < fuel
      → let s1 = (push_message server target msg s).1 in
        let (msgs, s2) = pop_messages server fuel target s1 in
        (msgs ≡ xs ++ (msg ∷ [])) × (queue (queue_key target) s2 ≡ some [])
  unfolding pop_messages
  pop_messages-push_message fuel target msg xs s named whole e on still h =
      rw (still, named, pop_messages)
        (pop_loop_lem fuel (queue_key target) (xs ++ (msg ∷ []))
          (push_message server target msg s).1 (push_message-queue target msg xs s named whole e on)
          (omega (arith, h, length-append xs (msg ∷ []))))
