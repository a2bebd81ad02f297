-- ===== src/Server/Stale.antt =====
-- What becomes of the devices of the users when a connection is used or closed.
use mathlib.Core.Option.{some-injective}
use distributed_im.Common.{
  ap, ℕ, List, [], ◌∷◌, ◌≡◌, ◌≢◌, refl, sym, ◌∙◌, inl, inr, true, false, none, some, Bytes,
  is_empty, ◌++◌, Option-cases, Bool-cases,
}
use distributed_im.Common.Assoc.{
  find, bytes_discrete, ℕ_discrete, find-insert_self, find-insert_ne, find-erase_ne,
}
use distributed_im.Common.Decimal.{pos}
use distributed_im.Priority.{HeapLibrary}
use distributed_im.Redis.{RedisServer}
use distributed_im.Redis.Users.{user_login}
use distributed_im.Server.{Connection, Kernel}
use distributed_im.Server.Send.{
  WriteEnd, all_written, broken, out_of_fuel, blocked, write_all, pack, Gateway, remove_fd, log_out,
  disconnect_client, put, keep_rest, after_send, send_on, send_to_client,
}
use distributed_im.Server.Delivery.{disconnect_client-find}
use distributed_im.Json.{Members}
use distributed_im.Server.Login.{succeeded, answer, admit, after_user_login, perform_login, push_fd}

module _ (kernel : Kernel) (redis : RedisServer) (heap : HeapLibrary) where
  open kernel use {World, watch_both}

  -- Closing or sending to a connection of user `name` leaves the devices of `other` as they are.
  abbrev Kind : ℕ → Bytes → Bytes → Gateway kernel redis heap → Gateway kernel redis heap → Type 0
  Kind fd name other s s' =
      (find bytes_discrete other s'.user_map ≡ find bytes_discrete other s.user_map)
      × ((c : Connection) → find ℕ_discrete fd s'.connections ≡ some c → c.username ≡ name)

  log_out-other :
      (name other : Bytes) (fd : ℕ) (s : Gateway kernel redis heap)
      → name ≢ other
      → find bytes_discrete other (log_out kernel redis heap name fd s).user_map
        ≡ find bytes_discrete other s.user_map
  unfolding log_out
  log_out-other name other fd s h = elim (Option-cases (find bytes_discrete name s.user_map)) [
    | inl e ↦ rw (e, log_out)
    | inr (fds, e) ↦ elim (Bool-cases (is_empty (remove_fd fd fds))) [
      | inl b ↦ rw (e, log_out, b) (find-erase_ne bytes_discrete name other s.user_map h)
      | inr b ↦
          rw (e, log_out, b)
            (find-insert_ne bytes_discrete name other (remove_fd fd fds) s.user_map h)
    ]
  ]

  disconnect_client-other :
      (fd : ℕ) (name other : Bytes) (s : Gateway kernel redis heap)
      → name ≢ other
      → ((c : Connection) → find ℕ_discrete fd s.connections ≡ some c → c.username ≡ name)
      → find bytes_discrete other (disconnect_client kernel redis heap fd s).user_map
        ≡ find bytes_discrete other s.user_map
  unfolding disconnect_client
  disconnect_client-other fd name other s h owns =
      elim (Option-cases (find ℕ_discrete fd s.connections)) [
        | inl e ↦ rw (e, disconnect_client)
        | inr (c, e) ↦ elim (Bool-cases (is_empty c.username)) [
          | inl b ↦ rw (e, disconnect_client, b)
          | inr b ↦
              rw (e, disconnect_client, b)
                (log_out-other c.username other fd s (λ same. h (sym (owns c e) ∙ same)))
        ]
      ]

  put-Kind :
      (fd : ℕ) (name other : Bytes) (conn : Connection) (w : World) (s : Gateway kernel redis heap)
      → conn.username ≡ name
      → Kind fd name other s (put kernel redis heap fd conn w s)
  put-Kind fd name other conn w s own = (
    refl,
    λ c e.
        ap (λ c. c.username)
          (some-injective c conn (sym e ∙ find-insert_self ℕ_discrete fd conn s.connections))
        ∙ own,
  )

  put_disconnect-Kind :
      (fd : ℕ) (name other : Bytes) (conn : Connection) (w : World) (s : Gateway kernel redis heap)
      → name ≢ other
      → conn.username ≡ name
      → Kind fd name other s
          (disconnect_client kernel redis heap fd (put kernel redis heap fd conn w s))
  put_disconnect-Kind fd name other conn w s h own =
      let s1 = put kernel redis heap fd conn w s in
      (
        disconnect_client-other fd name other s1 h (put-Kind fd name other conn w s own).1,
        λ c e. absurd (cc (e, disconnect_client-find kernel redis heap fd s1)),
      )

  keep_rest-Kind :
      (fd : ℕ) (name other : Bytes) (conn : Connection) (rest : Bytes) (w : World)
      (s : Gateway kernel redis heap)
      → name ≢ other
      → conn.username ≡ name
      → Kind fd name other s (keep_rest kernel redis heap fd conn rest w s)
  unfolding keep_rest
  keep_rest-Kind fd name other conn rest w s h own = elim (Bool-cases conn.write_pending) [
    | inl e ↦
        rw (e, keep_rest)
          (put-Kind fd name other (record conn { write_buffer = rest; write_pending = true }) w s
            own)
    | inr e ↦ elim (Bool-cases (watch_both fd w).0) [
      | inl ok ↦
          rw (e, keep_rest, ok)
            (put-Kind fd name other (record conn { write_buffer = rest; write_pending = true })
              (watch_both fd w).1 s own)
      | inr bad ↦
          rw (e, keep_rest, bad)
            (put_disconnect-Kind fd name other
              (record conn { write_buffer = rest; write_pending = true }) (watch_both fd w).1 s h
              own)
    ]
  ]

  after_send-Kind :
      (fd : ℕ) (name other : Bytes) (conn : Connection) (s : Gateway kernel redis heap)
      (r : WriteEnd × World)
      → name ≢ other
      → conn.username ≡ name
      → Kind fd name other s (after_send kernel redis heap fd conn s r)
  unfolding after_send
  after_send-Kind fd name other conn s (all_written, w) h own = put-Kind fd name other conn w s own
  after_send-Kind fd name other conn s (blocked rest, w) h own =
      keep_rest-Kind fd name other conn rest w s h own
  after_send-Kind fd name other conn s (broken, w) h own =
      put_disconnect-Kind fd name other conn w s h own
  after_send-Kind fd name other conn s (out_of_fuel, w) h own = put-Kind fd name other conn w s own

  send_to_client-Kind :
      (fd : ℕ) (name other msg : Bytes) (s : Gateway kernel redis heap)
      → name ≢ other
      → ((c : Connection) → find ℕ_discrete fd s.connections ≡ some c → c.username ≡ name)
      → Kind fd name other s (send_to_client kernel redis heap fd msg s)
  unfolding send_to_client send_on
  send_to_client-Kind fd name other msg s h owns =
      elim (Option-cases (find ℕ_discrete fd s.connections)) [
        | inl e ↦ rw (e, send_to_client) (refl, λ c f. absurd (cc (e, f)))
        | inr (conn, e) ↦ elim (Bool-cases (is_empty conn.write_buffer)) [
          | inl b ↦
              rw (e, send_to_client, b)
                (after_send-Kind fd name other conn s (write_all kernel fd (pack conn msg) s.world)
                  h (owns conn e))
          | inr b ↦
              rw (e, send_to_client, b)
                (put-Kind fd name other
                  (record conn { write_buffer = conn.write_buffer ++ pack conn msg }) s.world s
                  (owns conn e))
        ]
      ]

  push_fd-other :
      (name other : Bytes) (fd : ℕ) (m : List (Bytes × List ℕ))
      → name ≢ other
      → find bytes_discrete other (push_fd name fd m) ≡ find bytes_discrete other m
  unfolding push_fd
  push_fd-other name other fd m h = elim (Option-cases (find bytes_discrete name m)) [
    | inl e ↦ rw (e, push_fd) (find-insert_ne bytes_discrete name other (fd ∷ []) m h)
    | inr (fds, e) ↦
        rw (e, push_fd) (find-insert_ne bytes_discrete name other (fds ++ (fd ∷ [])) m h)
  ]

  admit-Kind :
      (dump : Members → Bytes) (now fd : ℕ) (conn : Connection) (name other : Bytes)
      (s : Gateway kernel redis heap)
      → name ≢ other
      → Kind fd name other s (admit kernel redis heap dump now fd conn name s)
  unfolding admit
  admit-Kind dump now fd conn name other s h = (
    push_fd-other name other fd s.user_map h,
    (put-Kind fd name other (record conn { username = name; is_login = true; last_active = now })
        s.world s refl).1,
  )

  -- A connection that logs in under a new name and is then closed: the devices of any other user stay the
  -- same. If the connection was logged in as that user, its descriptor stays among them, although the
  -- connection is gone.
  pub perform_login-stale :
      (dump : Members → Bytes) (now fd : ℕ) (conn : Connection) (name other : Bytes)
      (s : Gateway kernel redis heap)
      → name ≢ other
      → is_empty name ≡ false
      → (user_login redis name s.gateway_id fd s.redis).0 ≡ pos 1
      → let s1 = (perform_login kernel redis heap dump now fd conn name s).1 in
        let s2 = disconnect_client kernel redis heap fd s1 in
        (find bytes_discrete other s2.user_map ≡ find bytes_discrete other s.user_map)
        × (find ℕ_discrete fd s2.connections ≡ none)
  unfolding perform_login after_user_login answer
  perform_login-stale dump now fd conn name other s h named online =
      let logged = record s { redis = (user_login redis name s.gateway_id fd s.redis).1 } in
      let s1 = admit kernel redis heap dump now fd conn name logged in
      let msg = dump (succeeded s.gateway_id []) ++ (10 ∷ []) in
      let s2 = send_to_client kernel redis heap fd msg s1 in
      let (kept, owns) = admit-Kind dump now fd conn name other logged h in
      let (kept2, owns2) = send_to_client-Kind fd name other msg s1 h owns in
      rw (named, online, perform_login, after_user_login)
        (
          disconnect_client-other fd name other s2 h owns2 ∙ kept2 ∙ kept,
          disconnect_client-find kernel redis heap fd s2,
        )
