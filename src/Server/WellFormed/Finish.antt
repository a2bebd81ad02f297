-- ===== src/Server/WellFormed/Finish.antt =====
-- What a round does behind its events keeps the invariant of the connections, and leaves no idle connection.
use distributed_im.Common.{
  Option, refl, ap, sym, ◌∙◌, ℕ, ◌≡◌, inl, inr, List, [], ◌∷◌, none, some, Bytes, Bool-cases,
}
use distributed_im.Common.Assoc.{find, ℕ_discrete}
use distributed_im.Json.{JsonLibrary}
use distributed_im.Priority.{normal, HeapLibrary}
use distributed_im.Redis.{RedisServer}
use distributed_im.Redis.Queues.{pop_messages, drain_pending_users}
use distributed_im.Server.Isolation.Replies.{send_to_user-connections}
use distributed_im.Server.{Connection, Kernel}
use distributed_im.Server.Send.{Gateway, send_to_user}
use distributed_im.Server.Handlers.{
  check_ack_retries, deliver_queue, send_messages, push_to_users, push_offline_messages,
  check_timeouts, timed_out_fds,
}
use distributed_im.Server.Control.{finish_round}
use distributed_im.Server.Read.{Setup}
use distributed_im.Server.Timeouts.{is_idle, active, check_timeouts_lem}
use distributed_im.Server.WellFormed.{WellFormed, same-WellFormed}
use distributed_im.Server.WellFormed.Steps.{
  check_ack_retries-WellFormed, deliver_queue-WellFormed, disconnect_each-WellFormed,
}

active_idempotent :
    (now timeout : ℕ) (o : Option Connection)
    → active now timeout o ≡ active now timeout (active now timeout o)
active_idempotent now timeout none = refl
active_idempotent now timeout (some c) = elim (Bool-cases (is_idle now timeout c)) [
  | inl e ↦ rw (e) refl
  | inr e ↦ rw (e) (rw (e) refl)
]

module _ (kernel : Kernel) (redis : RedisServer) (heap : HeapLibrary) (json : JsonLibrary)
    (setup : Setup) where
  abbrev Q : Gateway kernel redis heap → Type 0
  Q = WellFormed kernel redis heap

  send_messages-WellFormed :
      (name : Bytes) (msgs : List Bytes) (s : Gateway kernel redis heap)
      → Q s
      → Q (send_messages kernel redis heap name msgs s)
  unfolding send_messages
  send_messages-WellFormed name [] s h = h
  send_messages-WellFormed name (msg ∷ msgs) s h =
      let s1 = send_to_user kernel redis heap name msg normal s in
      send_messages-WellFormed name msgs s1 (
        same-WellFormed kernel redis heap s s1
          (send_to_user-connections kernel redis heap json name msg normal s) h)

  push_to_users-WellFormed :
      (fuel : ℕ) (names : List Bytes) (s : Gateway kernel redis heap)
      → Q s
      → Q (push_to_users kernel redis heap fuel names s)
  unfolding push_to_users
  push_to_users-WellFormed fuel [] s h = h
  push_to_users-WellFormed fuel (name ∷ names) s h =
      let (msgs, r) = pop_messages redis fuel name s.redis in
      push_to_users-WellFormed fuel names _
        (send_messages-WellFormed name msgs (record s { redis = r }) h)

  pub push_offline_messages-WellFormed :
      (fuel : ℕ) (s : Gateway kernel redis heap)
      → Q s
      → Q (push_offline_messages kernel redis heap fuel s)
  unfolding push_offline_messages
  push_offline_messages-WellFormed fuel s h =
      let (pending, r) = drain_pending_users redis s.redis in
      push_to_users-WellFormed fuel pending (record s { redis = r }) h

  -- The state that a round gives to its check of the timeouts.
  abbrev pub before_timeouts : ℕ → ℕ → Gateway kernel redis heap → Gateway kernel redis heap
  before_timeouts fuel now s =
      let s1 = check_ack_retries kernel redis heap now s in
      push_offline_messages kernel redis heap fuel
        (deliver_queue kernel redis heap (heap.size s1.priority_q) s1)

  pub before_timeouts-WellFormed :
      (fuel now : ℕ) (s : Gateway kernel redis heap) → Q s → Q (before_timeouts fuel now s)
  before_timeouts-WellFormed fuel now s h =
      let s1 = check_ack_retries kernel redis heap now s in
      push_offline_messages-WellFormed fuel
        (deliver_queue kernel redis heap (heap.size s1.priority_q) s1)
        (deliver_queue-WellFormed kernel redis heap (heap.size s1.priority_q) s1
          (check_ack_retries-WellFormed kernel redis heap now s h))

  pub finish_round-WellFormed :
      (fuel now timeout : ℕ) (s : Gateway kernel redis heap)
      → Q s
      → Q (finish_round kernel redis heap fuel now timeout s)
  unfolding finish_round check_timeouts
  finish_round-WellFormed fuel now timeout s h =
      let s3 = before_timeouts fuel now s in
      disconnect_each-WellFormed kernel redis heap (timed_out_fds now timeout s3.connections) s3
        (before_timeouts-WellFormed fuel now s h)

  -- In a state with the invariant of the connections, the steps that a round takes behind its events, retries, queue, offline
  -- messages and timeouts, leave no connection that was idle for longer than `timeout` seconds: each one that is found is
  -- still active.
  pub finish_round-active :
      (fuel now timeout fd : ℕ) (s : Gateway kernel redis heap)
      → WellFormed kernel redis heap s
      → let s' = finish_round kernel redis heap fuel now timeout s in
        (find ℕ_discrete fd s'.connections ≡ active now timeout (find ℕ_discrete fd s'.connections))
  unfolding finish_round
  finish_round-active fuel now timeout fd s h =
      let s3 = before_timeouts fuel now s in
      let e =
        check_timeouts_lem kernel redis heap now timeout fd s3
          (before_timeouts-WellFormed fuel now s h).0 in
      e
      ∙ (active_idempotent now timeout (find ℕ_discrete fd s3.connections)
          ∙ ap (active now timeout) (sym e))
