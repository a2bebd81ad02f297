-- ===== src/Server/WellFormed/Messages.antt =====
-- Logins and messages keep the invariant of the connections.
use distributed_im.Common.{
  ℕ, zero, suc, inl, inr, Bool, true, false, List, [], Bytes, drop, is_empty, if_both, ite_both,
  Bool-cases, Option-cases,
}
use distributed_im.Common.Assoc.{find, bytes_discrete}
use distributed_im.Common.Decimal.{ℤ, pos, negsuc}
use distributed_im.Common.Text.{codes, starts_with}
use distributed_im.Json.{JsonLibrary, Members, get_json_type, get_json_string}
use distributed_im.Handler.{handle}
use distributed_im.Priority.{HeapLibrary}
use distributed_im.Redis.{RedisServer}
use distributed_im.Redis.Users.{user_login}
use distributed_im.Server.{Connection, Kernel}
use distributed_im.Server.Send.{Gateway, put}
use distributed_im.Server.Handlers.{trim_trailing_whitespace}
use distributed_im.Server.Delivery.{IsPending}
use distributed_im.Server.Login.{admit, answer, after_user_login, perform_login}
use distributed_im.Server.Dispatch.{
  register_handlers, send_reply, reply_from, limit, refuse_limited, login_as, dispatch,
  handle_typed, handle_trimmed, handle_message,
}
use distributed_im.Server.Isolation.Messages.{handle-connections}
use distributed_im.Server.WellFormed.{
  WellFormed, put-WellFormed, same-WellFormed, send_to_client-WellFormed,
}

module _ (kernel : Kernel) (redis : RedisServer) (heap : HeapLibrary) (json : JsonLibrary)
    (order : List Bytes → List Bytes) where
  abbrev Q : Gateway kernel redis heap → Type 0
  Q = WellFormed kernel redis heap

  after_user_login-WellFormed :
      (dump : Members → Bytes) (result : ℤ) (now fd : ℕ) (conn : Connection) (name : Bytes)
      (s : Gateway kernel redis heap)
      → IsPending conn
      → Q s
      → Q (after_user_login kernel redis heap dump result now fd conn name s).1
  unfolding after_user_login answer admit
  after_user_login-WellFormed dump (pos zero) now fd conn name s p h =
      elim (Option-cases (find bytes_discrete name s.user_map)) [
        | inl e ↦ rw (e, after_user_login) (send_to_client-WellFormed kernel redis heap fd _ s h)
        | inr (fds, e) ↦
            let logged = record conn { username = name; is_login = true; last_active = now } in
            rw (e, after_user_login)
              (send_to_client-WellFormed kernel redis heap fd _
                (admit kernel redis heap dump now fd conn name s)
                (put-WellFormed kernel redis heap fd logged s.world s p h))
      ]
  after_user_login-WellFormed dump (pos (suc zero)) now fd conn name s p h =
      let logged = record conn { username = name; is_login = true; last_active = now } in
      send_to_client-WellFormed kernel redis heap fd _
        (admit kernel redis heap dump now fd conn name s)
        (put-WellFormed kernel redis heap fd logged s.world s p h)
  after_user_login-WellFormed dump (pos (suc (suc n))) now fd conn name s p h =
      send_to_client-WellFormed kernel redis heap fd _ s h
  after_user_login-WellFormed dump (negsuc n) now fd conn name s p h =
      send_to_client-WellFormed kernel redis heap fd _ s h

  perform_login-WellFormed :
      (dump : Members → Bytes) (now fd : ℕ) (conn : Connection) (name : Bytes)
      (s : Gateway kernel redis heap)
      → IsPending conn
      → Q s
      → Q (perform_login kernel redis heap dump now fd conn name s).1
  unfolding perform_login answer
  perform_login-WellFormed dump now fd conn name s p h =
      let (result, r) = user_login redis name s.gateway_id fd s.redis in
      elim (Bool-cases (is_empty name)) [
        | inl e ↦ rw (e, perform_login) (send_to_client-WellFormed kernel redis heap fd _ s h)
        | inr e ↦
            rw (e, perform_login)
              (after_user_login-WellFormed dump result now fd conn name (record s { redis = r }) p
                h)
      ]

  reply_from-WellFormed :
      (now fd : ℕ) (type msg username : Bytes) (s : Gateway kernel redis heap)
      → Q s
      → Q (reply_from kernel redis heap json order now fd type msg username s)
  unfolding reply_from send_reply
  reply_from-WellFormed now fd type msg username s h =
      let (reply, s1) =
        handle (register_handlers kernel redis heap json order now) type msg username s in
      let h1 =
        same-WellFormed kernel redis heap s s1
          (handle-connections kernel redis heap json order now type msg username s) h in
      if_both Q (is_empty reply) _ _ h1 (send_to_client-WellFormed kernel redis heap fd reply s1 h1)

  limit-IsPending :
      (enabled : Bool) (clock : ℕ) (conn : Connection)
      → IsPending conn
      → IsPending (limit kernel redis heap json order enabled clock conn).1
  unfolding limit
  limit-IsPending true clock conn p = p
  limit-IsPending false clock conn p = p

  login_as-WellFormed :
      (enabled : Bool) (now clock fd : ℕ) (conn : Connection) (username device_id : Bytes)
      (s : Gateway kernel redis heap)
      → IsPending conn
      → Q s
      → Q (login_as kernel redis heap json order enabled now clock fd conn username device_id s)
  unfolding login_as refuse_limited
  login_as-WellFormed enabled now clock fd conn username device_id s p h =
      let (limited, conn1) = limit kernel redis heap json order enabled clock conn in
      let p1 = limit-IsPending enabled clock conn p in
      let p2 =
        if_both IsPending (is_empty device_id) conn1 (record conn1 { device_id = device_id }) p1
          p1 in
      if_both Q limited _ _ (put-WellFormed kernel redis heap fd conn1 s.world s p1 h) (
        perform_login-WellFormed json.dump now fd _ username _ p2
          (put-WellFormed kernel redis heap fd _ s.world s p2 h))

  dispatch-WellFormed :
      (enabled : Bool) (now clock fd : ℕ) (conn : Connection) (type msg : Bytes)
      (s : Gateway kernel redis heap)
      → IsPending conn
      → Q s
      → Q (dispatch kernel redis heap json order enabled now clock fd conn type msg s)
  unfolding dispatch refuse_limited
  dispatch-WellFormed enabled now clock fd conn type msg s p h =
      let (limited, conn1) = limit kernel redis heap json order enabled clock conn in
      let s1 = put kernel redis heap fd conn1 s.world s in
      let h1 =
        put-WellFormed kernel redis heap fd conn1 s.world s (limit-IsPending enabled clock conn p)
          h in
      if_both Q limited _ _ h1 (
        if_both Q (is_empty type) _ _ (send_to_client-WellFormed kernel redis heap fd _ s1 h1)
          (reply_from-WellFormed now fd type msg conn.username s1 h1))

  handle_typed-WellFormed :
      (enabled : Bool) (now clock fd : ℕ) (conn : Connection) (type msg : Bytes)
      (s : Gateway kernel redis heap)
      → IsPending conn
      → Q s
      → Q (handle_typed kernel redis heap json order enabled now clock fd conn type msg s)
  unfolding handle_typed
  handle_typed-WellFormed enabled now clock fd conn type msg s p h =
      ite_both Q (bytes_discrete type (codes "login")) _ _
        (login_as-WellFormed enabled now clock fd conn (get_json_string json msg (codes "username"))
          (get_json_string json msg (codes "device_id")) s p h)
        (ite_both Q (bytes_discrete type (codes "ping")) _ _
          (reply_from-WellFormed now fd type msg conn.username s h)
          (if_both Q conn.is_login _ _
            (dispatch-WellFormed enabled now clock fd conn type msg s p h)
            (send_to_client-WellFormed kernel redis heap fd _ s h)))

  pub handle_message-WellFormed :
      (enabled : Bool) (now clock fd : ℕ) (conn : Connection) (raw_msg : Bytes)
      (s : Gateway kernel redis heap)
      → IsPending conn
      → Q s
      → Q (handle_message kernel redis heap json order enabled now clock fd conn raw_msg s)
  unfolding handle_message handle_trimmed
  handle_message-WellFormed enabled now clock fd conn raw_msg s p h =
      let msg = trim_trailing_whitespace raw_msg in
      let who = reply_from-WellFormed now fd (codes "who") msg conn.username s h in
      if_both Q (is_empty msg) _ _ h (
        if_both Q (starts_with (codes "LOGIN ") msg) _ _
          (login_as-WellFormed enabled now clock fd conn (trim_trailing_whitespace (drop 6 msg)) []
            s p h)
          (if_both Q (starts_with (codes "WHO ") msg) _ _ who (
            ite_both Q (bytes_discrete msg (codes "WHO")) _ _ who (
              handle_typed-WellFormed enabled now clock fd conn (get_json_type json msg) msg s p
                h))))
