-- ===== src/Server/Dispatch.antt =====
-- gateway/src/EpollServer.cpp: the table that registerHandlers builds, and handleMessage, in the build without E2E_ENABLED
-- and AI_SERVICE_ENABLED.
use distributed_im.Common.{
  ℕ, Bool, false, not, List, [], ◌∷◌, ◌++◌, Bytes, drop, is_empty, ite, if◌then◌else◌,
}
use distributed_im.Common.Assoc.{bytes_discrete}
use distributed_im.Common.Text.{codes, starts_with}
use distributed_im.Json.{JsonLibrary, Members, text, seconds, get_json_string, get_json_type}
use distributed_im.Handler.{Handler, register_handler, handle}
use distributed_im.RateLimit.{RateLimiter, try_consume, retry_after_seconds}
use distributed_im.Priority.{urgent, HeapLibrary, queue_push}
use distributed_im.Redis.{RedisServer}
use distributed_im.Server.{Connection, Kernel}
use distributed_im.Server.Send.{Gateway, put, send_to_client}
use distributed_im.Server.Handlers.{trim_trailing_whitespace}
use distributed_im.Server.Login.{perform_login}
use distributed_im.Server.Messages.{
  dump_line, error_reply, on_chat, on_send, on_ack, on_react, on_ping, on_who,
}
use distributed_im.Server.GroupMessages.{
  on_group_create, on_group_join, on_group_leave, on_group_send,
}

abbrev pub limit_reply : RateLimiter → Members
limit_reply limiter =
    (codes "type", text (codes "error"))
    ∷ (codes "msg", text (codes "rate limit exceeded"))
    ∷ (codes "retry_after", seconds (retry_after_seconds limiter))
    ∷ []

module _ (kernel : Kernel) (redis : RedisServer) (heap : HeapLibrary) (json : JsonLibrary)
    (order : List Bytes → List Bytes) where
  -- `handler_`, as the constructor leaves it; `now` in seconds.
  unfoldable pub register_handlers : ℕ → List (Bytes × Handler (Gateway kernel redis heap))
  unfolding register_handler
  register_handlers now = register_handler (codes "who") (on_who kernel redis heap json order) (
      register_handler (codes "ping") (on_ping kernel redis heap json now) (
        register_handler (codes "react") (on_react kernel redis heap json now) (
          register_handler (codes "group_send") (on_group_send kernel redis heap json now) (
            register_handler (codes "group_leave") (on_group_leave kernel redis heap json) (
              register_handler (codes "group_join") (on_group_join kernel redis heap json) (
                register_handler (codes "group_create") (on_group_create kernel redis heap json now)
                  (register_handler (codes "ack") (on_ack kernel redis heap json) (
                    register_handler (codes "send") (on_send kernel redis heap json now) (
                      register_handler (codes "chat") (on_chat kernel redis heap json order now)
                        [])))))))))

  -- `if (!reply.empty()) sendToClient(fd, reply)`.
  unfoldable pub send_reply : ℕ → Bytes × Gateway kernel redis heap → Gateway kernel redis heap
  unfolding send_to_client
  send_reply fd (reply, s) =
      if is_empty reply then s else send_to_client kernel redis heap fd reply s

  unfoldable pub reply_from :
      ℕ → ℕ → Bytes → Bytes → Bytes → Gateway kernel redis heap → Gateway kernel redis heap
  unfolding register_handlers handle send_reply
  reply_from now fd type msg username s =
      send_reply fd (handle (register_handlers now) type msg username s)

  -- `enabled && !conn.rate_limiter.tryConsume()`; `clock` is the steady clock in microseconds.
  unfoldable pub limit : Bool → ℕ → Connection → Bool × Connection
  unfolding try_consume
  limit enabled clock conn =
      let (granted, limiter) = try_consume clock conn.rate_limiter in
      if enabled then (not granted, record conn { rate_limiter = limiter }) else (false, conn)

  -- The error goes into the queue, ahead of the other messages.
  unfoldable pub refuse_limited :
      ℕ → Connection → Gateway kernel redis heap → Gateway kernel redis heap
  unfolding dump_line queue_push
  refuse_limited fd conn s =
      let err = dump_line json (limit_reply conn.rate_limiter) in
      record s { priority_q = queue_push heap err fd urgent s.priority_q }

  unfoldable pub login_as :
      Bool
      → ℕ
      → ℕ
      → ℕ
      → Connection
      → Bytes
      → Bytes
      → Gateway kernel redis heap
      → Gateway kernel redis heap
  unfolding limit refuse_limited perform_login
  login_as enabled now clock fd conn username device_id s =
      let (limited, conn1) = limit enabled clock conn in
      let conn2 : Connection =
        if is_empty device_id then conn1 else record conn1 { device_id = device_id } in
      let s1 = put kernel redis heap fd conn1 s.world s in
      let s2 = put kernel redis heap fd conn2 s.world s in
      if limited
      then refuse_limited fd conn1 s1
      else (perform_login kernel redis heap json.dump now fd conn2 username s2).1

  -- A message of a user who has logged in.
  unfoldable pub dispatch :
      Bool
      → ℕ
      → ℕ
      → ℕ
      → Connection
      → Bytes
      → Bytes
      → Gateway kernel redis heap
      → Gateway kernel redis heap
  unfolding limit refuse_limited send_to_client reply_from
  dispatch enabled now clock fd conn type msg s =
      let (limited, conn1) = limit enabled clock conn in
      let s1 = put kernel redis heap fd conn1 s.world s in
      if limited
      then refuse_limited fd conn1 s1
      else if is_empty type
      then send_to_client kernel redis heap fd (codes "Unknown command" ++ (10 ∷ [])) s1
      else reply_from now fd type msg conn.username s1

  -- A JSON message, or a text that is none of the plain commands.
  unfoldable pub handle_typed :
      Bool
      → ℕ
      → ℕ
      → ℕ
      → Connection
      → Bytes
      → Bytes
      → Gateway kernel redis heap
      → Gateway kernel redis heap
  unfolding get_json_string login_as reply_from dump_line send_to_client dispatch
  handle_typed enabled now clock fd conn type msg s =
      let username = get_json_string json msg (codes "username") in
      let device_id = get_json_string json msg (codes "device_id") in
      let err = dump_line json (error_reply (codes "please login first")) in
      ite (bytes_discrete type (codes "login"))
        (login_as enabled now clock fd conn username device_id s)
        (ite (bytes_discrete type (codes "ping")) (reply_from now fd type msg conn.username s) (
          if conn.is_login
          then dispatch enabled now clock fd conn type msg s
          else send_to_client kernel redis heap fd err s))

  unfoldable pub handle_trimmed :
      Bool → ℕ → ℕ → ℕ → Connection → Bytes → Gateway kernel redis heap → Gateway kernel redis heap
  unfolding get_json_type login_as reply_from handle_typed trim_trailing_whitespace
  handle_trimmed enabled now clock fd conn msg s =
      let username = trim_trailing_whitespace (drop 6 msg) in
      let who = reply_from now fd (codes "who") msg conn.username s in
      if is_empty msg
      then s
      else if starts_with (codes "LOGIN ") msg
      then login_as enabled now clock fd conn username [] s
      else if starts_with (codes "WHO ") msg
      then who
      else ite (bytes_discrete msg (codes "WHO")) who
          (handle_typed enabled now clock fd conn (get_json_type json msg) msg s)

  -- `conn` is the connection of `fd`; `enabled` is that of the rate limit's configuration.
  unfoldable pub handle_message :
      Bool → ℕ → ℕ → ℕ → Connection → Bytes → Gateway kernel redis heap → Gateway kernel redis heap
  unfolding trim_trailing_whitespace handle_trimmed
  handle_message enabled now clock fd conn raw_msg s =
      handle_trimmed enabled now clock fd conn (trim_trailing_whitespace raw_msg) s
