-- ===== src/Server/Unauthorised.antt =====
-- What a connection that is not logged in can do.
use mathlib.Core.Path.{subst}
use distributed_im.Common.{
  ℕ, ◌≡◌, ◌≢◌, ◌∙◌, refl, sym, false, List, some, Bytes, is_empty, Bool, if_both, if_false,
  ite_both, ite_no, ite_split,
}
use distributed_im.Common.Assoc.{find, bytes_discrete, find-insert_self, find-insert_ne}
use distributed_im.Common.Text.{codes, starts_with}
use distributed_im.Json.{JsonLibrary, get_json_type}
use distributed_im.Handler.{register_handler, handle-find}
use distributed_im.Priority.{HeapLibrary}
use distributed_im.Redis.{RedisServer}
use distributed_im.Redis.Users.{get_all_online_users}
use distributed_im.Redis.Fifo.{ListServer}
use distributed_im.Redis.Kept.{get_all_online_users-queues}
use distributed_im.Server.Unheard.{
  Separate, Unheard, Unheard-refl, Unheard-trans, send_to_client-Unheard,
}
use distributed_im.Server.{Connection, Kernel}
use distributed_im.Server.Send.{Gateway, send_to_client}
use distributed_im.Server.Handlers.{trim_trailing_whitespace}
use distributed_im.Server.Untouched.{SameButAt, send_to_client-SameButAt}
use distributed_im.Server.Messages.{on_ping, on_who}
use distributed_im.Server.Dispatch.{
  register_handlers, send_reply, reply_from, handle_typed, handle_trimmed, handle_message,
}

module _ (kernel : Kernel) (redis : RedisServer) (heap : HeapLibrary) (json : JsonLibrary)
    (order : List Bytes → List Bytes) where
  find-who :
      (now : ℕ)
      → find bytes_discrete (codes "who") (register_handlers kernel redis heap json order now)
        ≡ some (on_who kernel redis heap json order)
  unfolding register_handlers register_handler
  find-who now = find-insert_self bytes_discrete _ _ _

  find-ping :
      (now : ℕ)
      → find bytes_discrete (codes "ping") (register_handlers kernel redis heap json order now)
        ≡ some (on_ping kernel redis heap json now)
  unfolding register_handlers register_handler
  find-ping now =
      find-insert_ne bytes_discrete (codes "who") (codes "ping") _ _ (λ e. absurd (cc (e)))
      ∙ find-insert_self bytes_discrete _ _ _

module _ (kernel : Kernel) (separate : Separate kernel) (redis : RedisServer)
    (lists : ListServer redis) (heap : HeapLibrary) (json : JsonLibrary)
    (order : List Bytes → List Bytes) where
  -- The queue, the tracker, the other connections and the offline messages are the same, and no byte went to another
  -- descriptor.
  abbrev pub Quiet : ℕ → Gateway kernel redis heap → Gateway kernel redis heap → Type 0
  Quiet fd s s' =
      SameButAt kernel redis heap fd s s' × Unheard kernel separate redis lists heap fd s s'

  send-Quiet :
      (fd : ℕ) (reply : Bytes) (s s1 : Gateway kernel redis heap)
      → Quiet fd s s1
      → Quiet fd s (send_to_client kernel redis heap fd reply s1)
  send-Quiet fd reply s s1 ((a, b, c), u) =
      let s2 = send_to_client kernel redis heap fd reply s1 in
      let (d, e, f) = send_to_client-SameButAt kernel redis heap fd reply s1 in
      let v = send_to_client-Unheard kernel separate redis lists heap fd reply s1 in
      (
        (d ∙ a, e ∙ b, λ j n. f j n ∙ c j n),
        Unheard-trans kernel separate redis lists heap fd s s1 s2 u v,
      )

  here : (fd : ℕ) (s : Gateway kernel redis heap) → Quiet fd s s
  here fd s = ((refl, refl, λ j n. refl), Unheard-refl kernel separate redis lists heap fd s)

  send_reply-Quiet :
      (fd : ℕ) (reply : Bytes) (s s1 : Gateway kernel redis heap)
      → Quiet fd s s1
      → Quiet fd s (send_reply kernel redis heap json order fd (reply, s1))
  unfolding send_reply
  send_reply-Quiet fd reply s s1 h =
      if_both (Quiet fd s) (is_empty reply) _ _ h (send-Quiet fd reply s s1 h)

  who-Quiet :
      (now fd : ℕ) (msg username : Bytes) (s : Gateway kernel redis heap)
      → Quiet fd s (reply_from kernel redis heap json order now fd (codes "who") msg username s)
  unfolding reply_from on_who
  who-Quiet now fd msg username s =
      let table = register_handlers kernel redis heap json order now in
      let asked : Quiet fd s (record s { redis = (get_all_online_users redis order s.redis).1 }) = (
        (refl, refl, λ j n. refl),
        (get_all_online_users-queues redis lists order s.redis, λ j n. refl),
      ) in
      let call =
        handle-find table (codes "who") msg username (on_who kernel redis heap json order) s
          (find-who kernel redis heap json order now) in
      subst (λ o. Quiet fd s (send_reply kernel redis heap json order fd o)) (sym call)
        (send_reply-Quiet fd _ s _ asked)

  ping-Quiet :
      (now fd : ℕ) (msg username : Bytes) (s : Gateway kernel redis heap)
      → Quiet fd s (reply_from kernel redis heap json order now fd (codes "ping") msg username s)
  unfolding reply_from on_ping
  ping-Quiet now fd msg username s =
      let table = register_handlers kernel redis heap json order now in
      let call =
        handle-find table (codes "ping") msg username (on_ping kernel redis heap json now) s
          (find-ping kernel redis heap json order now) in
      subst (λ o. Quiet fd s (send_reply kernel redis heap json order fd o)) (sym call)
        (send_reply-Quiet fd _ s s (here fd s))

  typed-Quiet :
      (enabled : Bool) (now clock fd : ℕ) (conn : Connection) (type msg : Bytes)
      (s : Gateway kernel redis heap)
      → conn.is_login ≡ false
      → type ≢ codes "login"
      → Quiet fd s (handle_typed kernel redis heap json order enabled now clock fd conn type msg s)
  unfolding handle_typed
  typed-Quiet enabled now clock fd conn type msg s out n =
      let Q = Quiet fd s in
      ite_no Q (bytes_discrete type (codes "login")) _ _ n (
        ite_split Q (bytes_discrete type (codes "ping")) _ _
          (λ e.
            subst (λ t. Q (reply_from kernel redis heap json order now fd t msg conn.username s))
              (sym e) (ping-Quiet now fd msg conn.username s))
          (if_false Q conn.is_login _ _ out (send-Quiet fd _ s s (here fd s))))

  -- A message that is no login, on a connection that is not logged in, in JSON or as a plain command, changes neither the
  -- queue nor the tracker, nor the offline messages of any user in Redis, nor any connection but its own, and no byte goes to
  -- another descriptor.
  pub handle_message_unauthorised :
      (enabled : Bool) (now clock fd : ℕ) (conn : Connection) (raw_msg : Bytes)
      (s : Gateway kernel redis heap)
      → conn.is_login ≡ false
      → starts_with (codes "LOGIN ") (trim_trailing_whitespace raw_msg) ≡ false
      → get_json_type json (trim_trailing_whitespace raw_msg) ≢ codes "login"
      → Quiet fd s (handle_message kernel redis heap json order enabled now clock fd conn raw_msg s)
  unfolding handle_message handle_trimmed
  handle_message_unauthorised enabled now clock fd conn raw_msg s out plain n =
      let Q = Quiet fd s in
      let msg = trim_trailing_whitespace raw_msg in
      let who = who-Quiet now fd msg conn.username s in
      if_both Q (is_empty msg) _ _ (here fd s) (
        if_false Q (starts_with (codes "LOGIN ") msg) _ _ plain (
          if_both Q (starts_with (codes "WHO ") msg) _ _ who (
            ite_both Q (bytes_discrete msg (codes "WHO")) _ _ who
              (typed-Quiet enabled now clock fd conn (get_json_type json msg) msg s out n))))
