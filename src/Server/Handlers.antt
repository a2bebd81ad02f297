-- ===== src/Server/Handlers.antt =====
-- gateway/src/EpollServer.cpp: accepting, the WebSocket upgrade, the steps of the loop that need no input of a client, and
-- the look-ups.
use distributed_im.Common.{
  ℕ, zero, suc, ◌-◌, Bool, true, false, List, [], ◌∷◌, ◌++◌, Option, none, some, Bytes, ltb, ◌==◌,
  if◌then◌else◌,
}
use distributed_im.Common.Assoc.{find, bytes_discrete, ℕ_discrete}
use distributed_im.Common.Text.{codes}
use distributed_im.Codec.Handshake.{is_upgrade_request, generate_handshake_response}
use distributed_im.Ack.{AckEntry, get_pending_retries, mark_retry_done, drain_dead_letters}
use distributed_im.Priority.{PriorityMessage, normal, HeapLibrary, queue_empty, queue_pop}
use distributed_im.Redis.{RedisServer}
use distributed_im.Redis.Queues.{push_message, pop_messages, drain_pending_users}
use distributed_im.Server.{Connection, websocket, new_connection, reset_ws, Kernel}
use distributed_im.Server.Send.{
  WriteEnd, all_written, broken, out_of_fuel, blocked, write_all, Gateway, put, disconnect_client,
  send_to_client, send_to_user,
}

-- The trailing line ends and spaces are dropped.
unfoldable pub trim_trailing_whitespace : Bytes → Bytes
trim_trailing_whitespace [] = []
trim_trailing_whitespace (c ∷ s) = trim_step c (trim_trailing_whitespace s)
  where
    trim_step : ℕ → Bytes → Bytes
    trim_step c [] = if c == 10 then [] else if c == 13 then [] else if c == 32 then [] else c ∷ []
    trim_step c (d ∷ s) = c ∷ d ∷ s

unfoldable pub timed_out_fds : ℕ → ℕ → List (ℕ × Connection) → List ℕ
timed_out_fds now timeout [] = []
timed_out_fds now timeout ((fd, conn) ∷ m) =
    let rest = timed_out_fds now timeout m in
    if ltb timeout (now - conn.last_active) then fd ∷ rest else rest

module _ (kernel : Kernel) (redis : RedisServer) (heap : HeapLibrary) where
  open kernel use {World, add_input, close}

  -- `connections_.emplace(fd, …)`: a descriptor that is there keeps its connection.
  unfoldable pub emplace : ℕ → Connection → Gateway kernel redis heap → Gateway kernel redis heap
  emplace fd conn s = elim (find ℕ_discrete fd s.connections) [
    | none ↦ put kernel redis heap fd conn s.world s
    | some old ↦ s
  ]

  -- `accepted` is what `accept` returned, `none` for -1, and `unblocked` whether `setNonBlocking` succeeded.
  unfoldable pub handle_accept :
      Option ℕ → Bool → ℕ → ℕ → Gateway kernel redis heap → Gateway kernel redis heap
  unfolding emplace new_connection
  handle_accept none unblocked now clock s = s
  handle_accept (some fd) unblocked now clock s =
      let (added, w) = add_input fd s.world in
      if unblocked
      then (if added
          then emplace fd (new_connection now clock) (record s { world = w })
          else record s { world = close fd w })
      else record s { world = close fd s.world }

  unfoldable pub after_response :
      ℕ
      → Connection
      → Gateway kernel redis heap
      → WriteEnd × World
      → Bool × Gateway kernel redis heap
  unfolding reset_ws
  after_response fd conn s (all_written, w) = (
    true,
    put kernel redis heap fd (record conn { protocol = websocket; ws = reset_ws conn.ws }) w s,
  )
  after_response fd conn s (blocked rest, w) = (false, record s { world = w })
  after_response fd conn s (broken, w) = (false, record s { world = w })
  after_response fd conn s (out_of_fuel, w) = (false, record s { world = w })

  -- `sha1` is OpenSSL's.
  unfoldable pub try_websocket_upgrade :
      (Bytes → Bytes)
      → ℕ
      → Connection
      → Bytes
      → Gateway kernel redis heap
      → Bool × Gateway kernel redis heap
  unfolding after_response write_all
  try_websocket_upgrade sha1 fd conn request s =
      let response = generate_handshake_response sha1 request in
      if is_upgrade_request request
      then after_response fd conn s (write_all kernel fd response s.world)
      else (false, s)

  unfoldable pub retry_each :
      ℕ → List AckEntry → Gateway kernel redis heap → Gateway kernel redis heap
  unfolding send_to_client
  retry_each now [] s = s
  retry_each now (e ∷ es) s =
      let s1 = send_to_client kernel redis heap e.target_fd e.content s in
      retry_each now es (record s1 { ack_tracker = mark_retry_done e.msg_id now s1.ack_tracker })

  unfoldable pub bury_each : List AckEntry → Gateway kernel redis heap → Gateway kernel redis heap
  bury_each [] s = s
  bury_each (e ∷ es) s =
      let r = (push_message redis (codes "dead_letter:" ++ e.target_user) e.content s.redis).1 in
      bury_each es (record s { redis = r })

  unfoldable pub check_ack_retries : ℕ → Gateway kernel redis heap → Gateway kernel redis heap
  unfolding retry_each bury_each
  check_ack_retries now s =
      let s1 = retry_each now (get_pending_retries now s.ack_tracker) s in
      let (dead, left) = drain_dead_letters s1.ack_tracker in
      bury_each dead (record s1 { ack_tracker = left })

  -- One message of the queue goes out; `none` is the descriptor -1.
  unfoldable pub send_queued :
      Option PriorityMessage × heap.Heap → Gateway kernel redis heap → Gateway kernel redis heap
  unfolding send_to_client
  send_queued (none, q) s = record s { priority_q = q }
  send_queued (some m, q) s =
      send_to_client kernel redis heap m.target_fd m.content (record s { priority_q = q })

  -- The loop over the queue, with fuel.
  unfoldable pub deliver_queue : ℕ → Gateway kernel redis heap → Gateway kernel redis heap
  unfolding send_queued queue_empty queue_pop
  deliver_queue zero s = s
  deliver_queue (suc fuel) s = elim (queue_empty heap s.priority_q) [
    | true ↦ s
    | false ↦ deliver_queue fuel (send_queued (queue_pop heap s.priority_q) s)
  ]

  unfoldable pub send_messages :
      Bytes → List Bytes → Gateway kernel redis heap → Gateway kernel redis heap
  unfolding send_to_user
  send_messages name [] s = s
  send_messages name (msg ∷ msgs) s =
      send_messages name msgs (send_to_user kernel redis heap name msg normal s)

  -- `fuel` bounds the messages that are popped for each user.
  unfoldable pub push_to_users :
      ℕ → List Bytes → Gateway kernel redis heap → Gateway kernel redis heap
  unfolding send_messages
  push_to_users fuel [] s = s
  push_to_users fuel (name ∷ names) s =
      let (msgs, r) = pop_messages redis fuel name s.redis in
      push_to_users fuel names (send_messages name msgs (record s { redis = r }))

  unfoldable pub push_offline_messages : ℕ → Gateway kernel redis heap → Gateway kernel redis heap
  unfolding push_to_users
  push_offline_messages fuel s =
      let (pending, r) = drain_pending_users redis s.redis in
      push_to_users fuel pending (record s { redis = r })

  unfoldable pub disconnect_each : List ℕ → Gateway kernel redis heap → Gateway kernel redis heap
  unfolding disconnect_client
  disconnect_each [] s = s
  disconnect_each (fd ∷ fds) s = disconnect_each fds (disconnect_client kernel redis heap fd s)

  unfoldable pub check_timeouts : ℕ → ℕ → Gateway kernel redis heap → Gateway kernel redis heap
  unfolding timed_out_fds disconnect_each
  check_timeouts now timeout s = disconnect_each (timed_out_fds now timeout s.connections) s

  unfoldable pub get_user_fds : Bytes → Gateway kernel redis heap → List ℕ
  get_user_fds username s = elim (find bytes_discrete username s.user_map) [
    | none ↦ []
    | some fds ↦ fds
  ]

  -- `none` is -1.
  unfoldable pub get_user_fd : Bytes → Gateway kernel redis heap → Option ℕ
  unfolding get_user_fds
  get_user_fd username s = elim (get_user_fds username s) [ [] ↦ none | fd ∷ fds ↦ some fd ]

  unfoldable pub get_username : ℕ → Gateway kernel redis heap → Bytes
  get_username fd s = elim (find ℕ_discrete fd s.connections) [ none ↦ [] | some c ↦ c.username ]
