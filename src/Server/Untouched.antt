-- ===== src/Server/Untouched.antt =====
-- What sending and disconnecting leave as it is.
use distributed_im.Common.{
  ◌++◌, ℕ, ◌≡◌, ◌≢◌, refl, ◌∙◌, inl, inr, true, Bytes, is_empty, Option-cases, Bool-cases,
}
use distributed_im.Common.Assoc.{find, bytes_discrete, ℕ_discrete, find-insert_ne, find-erase_ne}
use distributed_im.Priority.{HeapLibrary}
use distributed_im.Redis.{RedisServer}
use distributed_im.Server.{Connection, Kernel}
use distributed_im.Server.Send.{
  WriteEnd, all_written, broken, out_of_fuel, blocked, write_all, pack, Gateway, log_out,
  disconnect_client, put, keep_rest, after_send, send_on, send_to_client,
}

module _ (kernel : Kernel) (redis : RedisServer) (heap : HeapLibrary) where
  open kernel use {World, watch_both}

  -- Only the connections, the users, Redis and the kernel may differ, and no connection but that of `fd`.
  abbrev pub SameButAt : ℕ → Gateway kernel redis heap → Gateway kernel redis heap → Type 0
  SameButAt fd s s' =
      (s'.ack_tracker ≡ s.ack_tracker)
      × (s'.priority_q ≡ s.priority_q)
      × ((j : ℕ) → fd ≢ j → find ℕ_discrete j s'.connections ≡ find ℕ_discrete j s.connections)

  pub log_out-connections :
      (username : Bytes) (fd : ℕ) (s : Gateway kernel redis heap)
      → let s' = log_out kernel redis heap username fd s in
        (s'.connections ≡ s.connections)
        × (s'.ack_tracker ≡ s.ack_tracker)
        × (s'.priority_q ≡ s.priority_q)
  unfolding log_out
  log_out-connections username fd s =
      elim (Option-cases (find bytes_discrete username s.user_map)) [
        | inl e ↦ rw (e, log_out) (refl, refl, refl)
        | inr (fds, e) ↦ rw (e, log_out) (refl, refl, refl)
      ]

  SameButAt-trans :
      (fd : ℕ) (s s1 s2 : Gateway kernel redis heap)
      → SameButAt fd s s1
      → SameButAt fd s1 s2
      → SameButAt fd s s2
  SameButAt-trans fd s s1 s2 a b = (b.0 ∙ a.0, b.1 ∙ a.1, λ j h. b.2 j h ∙ a.2 j h)

  put-SameButAt :
      (fd : ℕ) (conn : Connection) (w : World) (s : Gateway kernel redis heap)
      → SameButAt fd s (put kernel redis heap fd conn w s)
  put-SameButAt fd conn w s =
      (refl, refl, λ j h. find-insert_ne ℕ_discrete fd j conn s.connections h)

  pub disconnect_client-SameButAt :
      (fd : ℕ) (s : Gateway kernel redis heap)
      → SameButAt fd s (disconnect_client kernel redis heap fd s)
  unfolding disconnect_client
  disconnect_client-SameButAt fd s = elim (Option-cases (find ℕ_discrete fd s.connections)) [
    | inl e ↦ rw (e, disconnect_client) (refl, refl, λ j h. refl)
    | inr (c, e) ↦
        let (conns, tracker, queue) = log_out-connections c.username fd s in
        elim (Bool-cases (is_empty c.username)) [
          | inl b ↦
              rw (e, disconnect_client, b)
                (refl, refl, λ j h. find-erase_ne ℕ_discrete fd j s.connections h)
          | inr b ↦
              rw (e, disconnect_client, b)
                (tracker, queue, λ j h. rw conns (find-erase_ne ℕ_discrete fd j s.connections h))
        ]
  ]

  put_disconnect-SameButAt :
      (fd : ℕ) (conn : Connection) (w : World) (s : Gateway kernel redis heap)
      → SameButAt fd s (disconnect_client kernel redis heap fd (put kernel redis heap fd conn w s))
  put_disconnect-SameButAt fd conn w s =
      let s1 = put kernel redis heap fd conn w s in
      SameButAt-trans fd s s1 (disconnect_client kernel redis heap fd s1)
        (put-SameButAt fd conn w s) (disconnect_client-SameButAt fd s1)

  keep_rest-SameButAt :
      (fd : ℕ) (conn : Connection) (rest : Bytes) (w : World) (s : Gateway kernel redis heap)
      → SameButAt fd s (keep_rest kernel redis heap fd conn rest w s)
  unfolding keep_rest
  keep_rest-SameButAt fd conn rest w s = elim (Bool-cases conn.write_pending) [
    | inl e ↦
        rw (e, keep_rest)
          (put-SameButAt fd (record conn { write_buffer = rest; write_pending = true }) w s)
    | inr e ↦ elim (Bool-cases (watch_both fd w).0) [
      | inl ok ↦
          rw (e, keep_rest, ok)
            (put-SameButAt fd (record conn { write_buffer = rest; write_pending = true })
              (watch_both fd w).1 s)
      | inr bad ↦
          rw (e, keep_rest, bad)
            (put_disconnect-SameButAt fd (record conn { write_buffer = rest; write_pending = true })
              (watch_both fd w).1 s)
    ]
  ]

  after_send-SameButAt :
      (fd : ℕ) (conn : Connection) (s : Gateway kernel redis heap) (r : WriteEnd × World)
      → SameButAt fd s (after_send kernel redis heap fd conn s r)
  unfolding after_send
  after_send-SameButAt fd conn s (all_written, w) = put-SameButAt fd conn w s
  after_send-SameButAt fd conn s (blocked rest, w) = keep_rest-SameButAt fd conn rest w s
  after_send-SameButAt fd conn s (broken, w) = put_disconnect-SameButAt fd conn w s
  after_send-SameButAt fd conn s (out_of_fuel, w) = put-SameButAt fd conn w s

  send_on-SameButAt :
      (fd : ℕ) (msg : Bytes) (s : Gateway kernel redis heap) (conn : Connection)
      → SameButAt fd s (send_on kernel redis heap fd msg s conn)
  unfolding send_on
  send_on-SameButAt fd msg s conn = elim (Bool-cases (is_empty conn.write_buffer)) [
    | inl e ↦
        rw (e, send_on)
          (after_send-SameButAt fd conn s (write_all kernel fd (pack conn msg) s.world))
    | inr e ↦
        rw (e, send_on)
          (put-SameButAt fd (record conn { write_buffer = conn.write_buffer ++ pack conn msg })
            s.world s)
  ]

  -- Sending to one connection leaves every other connection, the ACK tracker and the message queue as
  -- they are, also when it fails and the connection is closed.
  pub send_to_client-SameButAt :
      (fd : ℕ) (msg : Bytes) (s : Gateway kernel redis heap)
      → SameButAt fd s (send_to_client kernel redis heap fd msg s)
  unfolding send_to_client
  send_to_client-SameButAt fd msg s = elim (Option-cases (find ℕ_discrete fd s.connections)) [
    | inl e ↦ rw (e, send_to_client) (refl, refl, λ j h. refl)
    | inr (c, e) ↦ rw (e, send_to_client) (send_on-SameButAt fd msg s c)
  ]
