-- ===== src/Server/Isolation/Messages.antt =====
-- What a message changes of the connections.
use distributed_im.Common.{
  ℕ, ◌≡◌, refl, inl, inr, Bool, true, false, Bytes, List, [], is_empty, drop, if_both, ite_both,
  Bool-cases, Option-cases,
}
use distributed_im.Common.Assoc.{
  find, bytes_discrete, AllEntries, insert-AllEntries, find-AllEntries,
}
use distributed_im.Common.Text.{codes, starts_with}
use distributed_im.Json.{JsonLibrary, get_json_type, get_json_string}
use distributed_im.Handler.{Handler, register_handler, handle}
use distributed_im.Priority.{HeapLibrary}
use distributed_im.Redis.{RedisServer}
use distributed_im.Server.{Connection, Kernel}
use distributed_im.Server.Send.{Gateway, put}
use distributed_im.Server.Handlers.{trim_trailing_whitespace}
use distributed_im.Server.Dispatch.{
  register_handlers, send_reply, reply_from, limit, refuse_limited, login_as, dispatch,
  handle_typed, handle_trimmed, handle_message,
}
use distributed_im.Server.Isolation.{
  KeepsInput, Isolated, put-Isolated, send_to_client-Isolated, perform_login-Isolated,
}
use distributed_im.Server.Isolation.Replies.{
  SameConnections, on_chat-connections, on_send-connections, on_ack-connections,
  on_react-connections, on_ping-connections, on_who-connections, on_group_create-connections,
  on_group_join-connections, on_group_leave-connections, on_group_send-connections,
}

module _ (kernel : Kernel) (redis : RedisServer) (heap : HeapLibrary) (json : JsonLibrary)
    (order : List Bytes → List Bytes) where
  abbrev IsQuiet : Bytes → Handler (Gateway kernel redis heap) → Type 0
  IsQuiet type handler =
      (msg username : Bytes) (s : Gateway kernel redis heap)
      → SameConnections kernel redis heap json s (handler msg username s).1

  register_handler-AllQuiet :
      (type : Bytes) (handler : Handler (Gateway kernel redis heap))
      (handlers : List (Bytes × Handler (Gateway kernel redis heap)))
      → IsQuiet type handler
      → AllEntries bytes_discrete IsQuiet handlers
      → AllEntries bytes_discrete IsQuiet (register_handler type handler handlers)
  unfolding register_handler
  register_handler-AllQuiet type handler handlers =
      insert-AllEntries bytes_discrete IsQuiet type handler handlers

  register_handlers-AllQuiet :
      (now : ℕ)
      → AllEntries bytes_discrete IsQuiet (register_handlers kernel redis heap json order now)
  unfolding register_handlers
  register_handlers-AllQuiet now =
      register_handler-AllQuiet _ _ _ (on_who-connections kernel redis heap json order) (
        register_handler-AllQuiet _ _ _ (on_ping-connections kernel redis heap json now) (
          register_handler-AllQuiet _ _ _ (on_react-connections kernel redis heap json now) (
            register_handler-AllQuiet _ _ _ (on_group_send-connections kernel redis heap json now) (
              register_handler-AllQuiet _ _ _ (on_group_leave-connections kernel redis heap json) (
                register_handler-AllQuiet _ _ _ (on_group_join-connections kernel redis heap json) (
                  register_handler-AllQuiet _ _ _
                    (on_group_create-connections kernel redis heap json now)
                    (register_handler-AllQuiet _ _ _ (on_ack-connections kernel redis heap json) (
                      register_handler-AllQuiet _ _ _
                        (on_send-connections kernel redis heap json now)
                        (register_handler-AllQuiet _ _ []
                          (on_chat-connections kernel redis heap json order now) tt)))))))))

  pub handle-connections :
      (now : ℕ) (type msg username : Bytes) (s : Gateway kernel redis heap)
      → SameConnections kernel redis heap json s
          (handle (register_handlers kernel redis heap json order now) type msg username s).1
  unfolding handle
  handle-connections now type msg username s =
      let table = register_handlers kernel redis heap json order now in
      elim (Option-cases (find bytes_discrete type table)) [
        | inl e ↦ rw (e, handle) refl
        | inr (handler, e) ↦
            rw (e, handle)
              (find-AllEntries bytes_discrete IsQuiet type handler table
                (register_handlers-AllQuiet now) e msg username s)
      ]

  send_reply-Isolated :
      (fd : ℕ) (conn : Connection) (s s1 : Gateway kernel redis heap)
      (reply : Bytes × Gateway kernel redis heap)
      → Isolated kernel redis heap fd conn s s1
      → reply.1.connections ≡ s1.connections
      → Isolated kernel redis heap fd conn s (send_reply kernel redis heap json order fd reply)
  unfolding send_reply
  send_reply-Isolated fd conn s s1 (reply, s2) (others, input) same =
      let kept : Isolated kernel redis heap fd conn s s2 =
        (λ j n. rw same (others j n), λ c e. input c (rw same at e)) in
      elim (Bool-cases (is_empty reply)) [
        | inl e ↦ rw (e, send_reply) kept
        | inr e ↦
            rw (e, send_reply) (send_to_client-Isolated kernel redis heap fd conn reply s s2 kept)
      ]

  reply_from-Isolated :
      (now fd : ℕ) (type msg username : Bytes) (conn : Connection)
      (s s1 : Gateway kernel redis heap)
      → Isolated kernel redis heap fd conn s s1
      → Isolated kernel redis heap fd conn s
          (reply_from kernel redis heap json order now fd type msg username s1)
  unfolding reply_from
  reply_from-Isolated now fd type msg username conn s s1 h =
      send_reply-Isolated fd conn s s1
        (handle (register_handlers kernel redis heap json order now) type msg username s1) h
        (handle-connections now type msg username s1)

  limit-input :
      (enabled : Bool) (clock : ℕ) (conn : Connection)
      → ((limit kernel redis heap json order enabled clock conn).1.read_buffer ≡ conn.read_buffer)
        × ((limit kernel redis heap json order enabled clock conn).1.ws ≡ conn.ws)
  unfolding limit
  limit-input true clock conn = (refl, refl)
  limit-input false clock conn = (refl, refl)

  login_as-Isolated :
      (enabled : Bool) (now clock fd : ℕ) (conn : Connection) (username device_id : Bytes)
      (s : Gateway kernel redis heap)
      → Isolated kernel redis heap fd conn s
          (login_as kernel redis heap json order enabled now clock fd conn username device_id s)
  unfolding login_as refuse_limited
  login_as-Isolated enabled now clock fd conn username device_id s =
      let (limited, conn1) = limit kernel redis heap json order enabled clock conn in
      let (b, v) = limit-input enabled clock conn in
      let with_id = record conn1 { device_id = device_id } in
      elim (Bool-cases limited) [
        | inl e ↦
            rw (e, login_as)
              (put-Isolated kernel redis heap fd conn conn1 s.world s s (λ j n. refl) b v)
        | inr e ↦ elim (Bool-cases (is_empty device_id)) [
          | inl f ↦
              rw (e, f, login_as)
                (perform_login-Isolated kernel redis heap json.dump now fd conn conn1 username s
                  (put kernel redis heap fd conn1 s.world s)
                  (put-Isolated kernel redis heap fd conn conn1 s.world s s (λ j n. refl) b v) b v)
          | inr f ↦
              rw (e, f, login_as)
                (perform_login-Isolated kernel redis heap json.dump now fd conn with_id username s
                  (put kernel redis heap fd with_id s.world s)
                  (put-Isolated kernel redis heap fd conn with_id s.world s s (λ j n. refl) b v) b
                  v)
        ]
      ]

  dispatch-Isolated :
      (enabled : Bool) (now clock fd : ℕ) (conn : Connection) (type msg : Bytes)
      (s : Gateway kernel redis heap)
      → Isolated kernel redis heap fd conn s
          (dispatch kernel redis heap json order enabled now clock fd conn type msg s)
  unfolding dispatch refuse_limited
  dispatch-Isolated enabled now clock fd conn type msg s =
      let (limited, conn1) = limit kernel redis heap json order enabled clock conn in
      let (b, v) = limit-input enabled clock conn in
      let s1 = put kernel redis heap fd conn1 s.world s in
      let kept = put-Isolated kernel redis heap fd conn conn1 s.world s s (λ j n. refl) b v in
      elim (Bool-cases limited) [
        | inl e ↦ rw (e, dispatch) kept
        | inr e ↦ elim (Bool-cases (is_empty type)) [
          | inl f ↦
              rw (e, f, dispatch) (send_to_client-Isolated kernel redis heap fd conn _ s s1 kept)
          | inr f ↦
              rw (e, f, dispatch) (reply_from-Isolated now fd type msg conn.username conn s s1 kept)
        ]
      ]

  handle_typed-Isolated :
      (enabled : Bool) (now clock fd : ℕ) (conn : Connection) (type msg : Bytes)
      (s : Gateway kernel redis heap)
      → KeepsInput kernel redis heap fd conn s
      → Isolated kernel redis heap fd conn s
          (handle_typed kernel redis heap json order enabled now clock fd conn type msg s)
  unfolding handle_typed
  handle_typed-Isolated enabled now clock fd conn type msg s input =
      let here : Isolated kernel redis heap fd conn s s = (λ j n. refl, input) in
      let Q = Isolated kernel redis heap fd conn s in
      ite_both Q (bytes_discrete type (codes "login")) _ _
        (login_as-Isolated enabled now clock fd conn (get_json_string json msg (codes "username"))
          (get_json_string json msg (codes "device_id")) s)
        (ite_both Q (bytes_discrete type (codes "ping")) _ _
          (reply_from-Isolated now fd type msg conn.username conn s s here)
          (if_both Q conn.is_login _ _ (dispatch-Isolated enabled now clock fd conn type msg s)
            (send_to_client-Isolated kernel redis heap fd conn _ s s here)))

  -- A message leaves every other connection as it is, and the bytes and the parser's state of its own connection, if it is
  -- still there.
  pub handle_message-Isolated :
      (enabled : Bool) (now clock fd : ℕ) (conn : Connection) (raw_msg : Bytes)
      (s : Gateway kernel redis heap)
      → KeepsInput kernel redis heap fd conn s
      → Isolated kernel redis heap fd conn s
          (handle_message kernel redis heap json order enabled now clock fd conn raw_msg s)
  unfolding handle_message handle_trimmed
  handle_message-Isolated enabled now clock fd conn raw_msg s input =
      let msg = trim_trailing_whitespace raw_msg in
      let here : Isolated kernel redis heap fd conn s s = (λ j n. refl, input) in
      let who = reply_from-Isolated now fd (codes "who") msg conn.username conn s s here in
      let Q = Isolated kernel redis heap fd conn s in
      if_both Q (is_empty msg) _ _ here (
        if_both Q (starts_with (codes "LOGIN ") msg) _ _
          (login_as-Isolated enabled now clock fd conn (trim_trailing_whitespace (drop 6 msg)) [] s)
          (if_both Q (starts_with (codes "WHO ") msg) _ _ who (
            ite_both Q (bytes_discrete msg (codes "WHO")) _ _ who (
              handle_typed-Isolated enabled now clock fd conn (get_json_type json msg) msg s
                input))))
