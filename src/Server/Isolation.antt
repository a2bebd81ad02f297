-- ===== src/Server/Isolation.antt =====
-- What sending, disconnecting and logging in on one connection leave of the connections: the others, and its own input.
pub mod Replies
pub mod Messages
use mathlib.Core.Option.{some-injective}
use distributed_im.Common.{
  ℕ, zero, suc, ◌≡◌, ◌≢◌, refl, sym, ap, ◌∙◌, inl, inr, Bool, true, false, none, some, Bytes,
  is_empty, ◌++◌, Option-cases, Bool-cases,
}
use distributed_im.Common.Assoc.{find, bytes_discrete, ℕ_discrete, find-insert_self, find-insert_ne}
use distributed_im.Common.Decimal.{ℤ, pos, negsuc}
use distributed_im.Priority.{HeapLibrary}
use distributed_im.Redis.{RedisServer}
use distributed_im.Redis.Users.{user_login}
use distributed_im.Json.{Members}
use distributed_im.Server.{Connection, Kernel}
use distributed_im.Server.Send.{
  WriteEnd, all_written, broken, out_of_fuel, blocked, write_all, pack, Gateway, put, keep_rest,
  after_send, send_on, send_to_client, disconnect_client,
}
use distributed_im.Server.Delivery.{disconnect_client-find}
use distributed_im.Server.Untouched.{send_to_client-SameButAt, disconnect_client-SameButAt}
use distributed_im.Server.Login.{admit, answer, after_user_login, perform_login}

module _ (kernel : Kernel) (redis : RedisServer) (heap : HeapLibrary) where
  open kernel use {World, watch_both}

  -- The connection of `fd`, if it is there, has the bytes and the parser's state of `conn`.
  abbrev pub KeepsInput : ℕ → Connection → Gateway kernel redis heap → Type 0
  KeepsInput fd conn s =
      (c : Connection)
      → find ℕ_discrete fd s.connections ≡ some c
      → (c.read_buffer ≡ conn.read_buffer) × (c.ws ≡ conn.ws)

  abbrev pub KeepsOthers : ℕ → Gateway kernel redis heap → Gateway kernel redis heap → Type 0
  KeepsOthers fd s s' =
      (j : ℕ) → fd ≢ j → find ℕ_discrete j s'.connections ≡ find ℕ_discrete j s.connections

  abbrev pub Isolated :
      ℕ → Connection → Gateway kernel redis heap → Gateway kernel redis heap → Type 0
  Isolated fd conn s s' = KeepsOthers fd s s' × KeepsInput fd conn s'

  put-KeepsInput :
      (fd : ℕ) (conn conn' : Connection) (w : World) (s : Gateway kernel redis heap)
      → conn'.read_buffer ≡ conn.read_buffer
      → conn'.ws ≡ conn.ws
      → KeepsInput fd conn (put kernel redis heap fd conn' w s)
  put-KeepsInput fd conn conn' w s b v c e =
      let same : c ≡ conn' =
        some-injective c conn' (sym e ∙ find-insert_self ℕ_discrete fd conn' s.connections) in
      (ap (λ c. c.read_buffer) same ∙ b, ap (λ c. c.ws) same ∙ v)

  pub put-Isolated :
      (fd : ℕ) (conn conn' : Connection) (w : World) (s s1 : Gateway kernel redis heap)
      → KeepsOthers fd s s1
      → conn'.read_buffer ≡ conn.read_buffer
      → conn'.ws ≡ conn.ws
      → Isolated fd conn s (put kernel redis heap fd conn' w s1)
  put-Isolated fd conn conn' w s s1 h b v = (
    λ j n. find-insert_ne ℕ_discrete fd j conn' s1.connections n ∙ h j n,
    put-KeepsInput fd conn conn' w s1 b v,
  )

  pub disconnect_client-Isolated :
      (fd : ℕ) (conn : Connection) (s s1 : Gateway kernel redis heap)
      → KeepsOthers fd s s1
      → Isolated fd conn s (disconnect_client kernel redis heap fd s1)
  disconnect_client-Isolated fd conn s s1 h = (
    λ j n. (disconnect_client-SameButAt kernel redis heap fd s1).2 j n ∙ h j n,
    λ c e. absurd (cc (e, disconnect_client-find kernel redis heap fd s1)),
  )

  put_disconnect-KeepsInput :
      (fd : ℕ) (conn conn' : Connection) (w : World) (s : Gateway kernel redis heap)
      → KeepsInput fd conn
          (disconnect_client kernel redis heap fd (put kernel redis heap fd conn' w s))
  put_disconnect-KeepsInput fd conn conn' w s c e =
      absurd
        (cc (e, disconnect_client-find kernel redis heap fd (put kernel redis heap fd conn' w s)))

  keep_rest-KeepsInput :
      (fd : ℕ) (conn : Connection) (rest : Bytes) (w : World) (s : Gateway kernel redis heap)
      → KeepsInput fd conn (keep_rest kernel redis heap fd conn rest w s)
  unfolding keep_rest
  keep_rest-KeepsInput fd conn rest w s =
      let waiting = record conn { write_buffer = rest; write_pending = true } in
      elim (Bool-cases conn.write_pending) [
        | inl e ↦ rw (e, keep_rest) (put-KeepsInput fd conn waiting w s refl refl)
        | inr e ↦ elim (Bool-cases (watch_both fd w).0) [
          | inl ok ↦
              rw (e, keep_rest, ok) (put-KeepsInput fd conn waiting (watch_both fd w).1 s refl refl)
          | inr bad ↦
              rw (e, keep_rest, bad)
                (put_disconnect-KeepsInput fd conn waiting (watch_both fd w).1 s)
        ]
      ]

  after_send-KeepsInput :
      (fd : ℕ) (conn : Connection) (s : Gateway kernel redis heap) (r : WriteEnd × World)
      → KeepsInput fd conn (after_send kernel redis heap fd conn s r)
  unfolding after_send
  after_send-KeepsInput fd conn s (all_written, w) = put-KeepsInput fd conn conn w s refl refl
  after_send-KeepsInput fd conn s (blocked rest, w) = keep_rest-KeepsInput fd conn rest w s
  after_send-KeepsInput fd conn s (broken, w) = put_disconnect-KeepsInput fd conn conn w s
  after_send-KeepsInput fd conn s (out_of_fuel, w) = put-KeepsInput fd conn conn w s refl refl

  send_on-KeepsInput :
      (fd : ℕ) (msg : Bytes) (conn : Connection) (s : Gateway kernel redis heap)
      → KeepsInput fd conn (send_on kernel redis heap fd msg s conn)
  unfolding send_on
  send_on-KeepsInput fd msg conn s = elim (Bool-cases (is_empty conn.write_buffer)) [
    | inl b ↦
        rw (b, send_on)
          (after_send-KeepsInput fd conn s (write_all kernel fd (pack conn msg) s.world))
    | inr b ↦
        rw (b, send_on)
          (put-KeepsInput fd conn
            (record conn { write_buffer = conn.write_buffer ++ pack conn msg }) s.world s refl refl)
  ]

  pub send_to_client-Isolated :
      (fd : ℕ) (conn : Connection) (msg : Bytes) (s s1 : Gateway kernel redis heap)
      → Isolated fd conn s s1
      → Isolated fd conn s (send_to_client kernel redis heap fd msg s1)
  unfolding send_to_client
  send_to_client-Isolated fd conn msg s s1 (others, input) = (
    λ j n. (send_to_client-SameButAt kernel redis heap fd msg s1).2 j n ∙ others j n,
    elim (Option-cases (find ℕ_discrete fd s1.connections)) [
      | inl e ↦ rw (e, send_to_client) (λ c f. absurd (cc (e, f)))
      | inr (old, e) ↦
          rw (e, send_to_client)
            (λ c f.
              let (b, v) = send_on-KeepsInput fd msg old s1 c f in
              let (b1, v1) = input old e in (b ∙ b1, v ∙ v1))
    ],
  )

  after_user_login-Isolated :
      (dump : Members → Bytes) (result : ℤ) (now fd : ℕ) (conn conn1 : Connection) (name : Bytes)
      (s s1 : Gateway kernel redis heap)
      → Isolated fd conn s s1
      → conn1.read_buffer ≡ conn.read_buffer
      → conn1.ws ≡ conn.ws
      → Isolated fd conn s (after_user_login kernel redis heap dump result now fd conn1 name s1).1
  unfolding after_user_login answer admit
  after_user_login-Isolated dump (pos zero) now fd conn conn1 name s s1 h b v =
      elim (Option-cases (find bytes_discrete name s1.user_map)) [
        | inl e ↦ rw (e, after_user_login) (send_to_client-Isolated fd conn _ s s1 h)
        | inr (fds, e) ↦
            rw (e, after_user_login)
              (send_to_client-Isolated fd conn _ s
                (admit kernel redis heap dump now fd conn1 name s1)
                (put-Isolated fd conn
                  (record conn1 { username = name; is_login = true; last_active = now }) s1.world s
                  s1 h.0 b v))
      ]
  after_user_login-Isolated dump (pos (suc zero)) now fd conn conn1 name s s1 h b v =
      send_to_client-Isolated fd conn _ s (admit kernel redis heap dump now fd conn1 name s1) (
        put-Isolated fd conn (record conn1 { username = name; is_login = true; last_active = now })
          s1.world s s1 h.0 b v)
  after_user_login-Isolated dump (pos (suc (suc n))) now fd conn conn1 name s s1 h b v =
      send_to_client-Isolated fd conn _ s s1 h
  after_user_login-Isolated dump (negsuc n) now fd conn conn1 name s s1 h b v =
      send_to_client-Isolated fd conn _ s s1 h

  pub perform_login-Isolated :
      (dump : Members → Bytes) (now fd : ℕ) (conn conn1 : Connection) (name : Bytes)
      (s s1 : Gateway kernel redis heap)
      → Isolated fd conn s s1
      → conn1.read_buffer ≡ conn.read_buffer
      → conn1.ws ≡ conn.ws
      → Isolated fd conn s (perform_login kernel redis heap dump now fd conn1 name s1).1
  unfolding perform_login answer
  perform_login-Isolated dump now fd conn conn1 name s s1 h b v =
      let (result, r) = user_login redis name s1.gateway_id fd s1.redis in
      elim (Bool-cases (is_empty name)) [
        | inl e ↦ rw (e, perform_login) (send_to_client-Isolated fd conn _ s s1 h)
        | inr e ↦
            rw (e, perform_login)
              (after_user_login-Isolated dump result now fd conn conn1 name s
                (record s1 { redis = r }) h b v)
      ]
