-- ===== src/Server/WellFormed.antt =====
-- The invariant of the connections: one for each descriptor, and bytes that wait are marked as pending. Sending, disconnecting,
-- flushing, accepting and logging in keep it.
pub mod Messages
pub mod Reading
pub mod Frames
pub mod Steps
pub mod Finish
pub mod Rounds
use distributed_im.Common.{
  ℕ, zero, suc, ◌≡◌, refl, sym, inl, inr, Bool, true, false, List, [], ◌∷◌, ◌++◌, Option, none,
  some, Bytes, is_empty, if_both, if_split, Bool-cases, Option-cases, if◌then◌else◌,
}
use distributed_im.Common.Assoc.{
  find, bytes_discrete, ℕ_discrete, NodupKeys, AllEntries, insert-NodupKeys, insert-AllEntries,
  erase-NodupKeys, erase-AllEntries, find-AllEntries,
}
use distributed_im.Common.Decimal.{ℤ, pos, negsuc}
use distributed_im.Json.{Members}
use distributed_im.Priority.{HeapLibrary}
use distributed_im.Redis.{RedisServer}
use distributed_im.Redis.Users.{user_login}
use distributed_im.Server.{Connection, Kernel, new_connection}
use distributed_im.Server.Send.{
  WriteEnd, all_written, broken, out_of_fuel, blocked, write_all, pack, Gateway, put, keep_rest,
  after_send, send_on, send_to_client, disconnect_client, log_out, handle_write, after_flush,
  all_flushed,
}
use distributed_im.Server.Handlers.{emplace, handle_accept}
use distributed_im.Server.Delivery.{IsPending}
use distributed_im.Server.Untouched.{log_out-connections}
use distributed_im.Server.Login.{admit, answer, after_user_login, perform_login}

-- What the connection of a descriptor satisfies.
abbrev pub Pending : ℕ → Connection → Type 0
Pending fd conn = IsPending conn

module _ (kernel : Kernel) (redis : RedisServer) (heap : HeapLibrary) where
  open kernel use {World, watch_both, watch_input, add_input}

  abbrev pub WellFormed : Gateway kernel redis heap → Type 0
  WellFormed s = NodupKeys ℕ_discrete s.connections × AllEntries ℕ_discrete Pending s.connections

  pub put-WellFormed :
      (fd : ℕ) (conn : Connection) (w : World) (s : Gateway kernel redis heap)
      → IsPending conn
      → WellFormed s
      → WellFormed (put kernel redis heap fd conn w s)
  put-WellFormed fd conn w s p (n, a) = (
    insert-NodupKeys ℕ_discrete fd conn s.connections n,
    insert-AllEntries ℕ_discrete Pending fd conn s.connections p a,
  )

  pub find-IsPending :
      (fd : ℕ) (conn : Connection) (s : Gateway kernel redis heap)
      → WellFormed s
      → find ℕ_discrete fd s.connections ≡ some conn
      → IsPending conn
  find-IsPending fd conn s (n, a) e = find-AllEntries ℕ_discrete Pending fd conn s.connections a e

  pub same-WellFormed :
      (s s' : Gateway kernel redis heap)
      → s'.connections ≡ s.connections
      → WellFormed s
      → WellFormed s'
  same-WellFormed s s' e h = rw e h

  pub disconnect_client-WellFormed :
      (fd : ℕ) (s : Gateway kernel redis heap)
      → WellFormed s
      → WellFormed (disconnect_client kernel redis heap fd s)
  unfolding disconnect_client
  disconnect_client-WellFormed fd s h = elim (Option-cases (find ℕ_discrete fd s.connections)) [
    | inl e ↦ rw (e, disconnect_client) h
    | inr (c, e) ↦
        let out = log_out kernel redis heap c.username fd s in
        let (n, a) : WellFormed (if is_empty c.username then s else out) =
          if_both WellFormed (is_empty c.username) s out h
            (same-WellFormed s out (log_out-connections kernel redis heap c.username fd s).0 h) in
        rw (e, disconnect_client)
          (erase-NodupKeys ℕ_discrete fd _ n, erase-AllEntries ℕ_discrete Pending fd _ a)
  ]

  keep_rest-WellFormed :
      (fd : ℕ) (conn : Connection) (rest : Bytes) (w : World) (s : Gateway kernel redis heap)
      → WellFormed s
      → WellFormed (keep_rest kernel redis heap fd conn rest w s)
  unfolding keep_rest
  keep_rest-WellFormed fd conn rest w s h =
      let waiting = record conn { write_buffer = rest; write_pending = true } in
      let w1 = (watch_both fd w).1 in
      let h1 = put-WellFormed fd waiting w1 s (λ x. refl) h in
      if_split WellFormed conn.write_pending _ _
        (λ e. put-WellFormed fd (record conn { write_buffer = rest }) w s (λ x. e) h)
        (λ e.
          if_both WellFormed (watch_both fd w).0 _ _ h1
            (disconnect_client-WellFormed fd (put kernel redis heap fd waiting w1 s) h1))

  after_send-WellFormed :
      (fd : ℕ) (conn : Connection) (s : Gateway kernel redis heap) (r : WriteEnd × World)
      → IsPending conn
      → WellFormed s
      → WellFormed (after_send kernel redis heap fd conn s r)
  unfolding after_send
  after_send-WellFormed fd conn s (all_written, w) p h = put-WellFormed fd conn w s p h
  after_send-WellFormed fd conn s (blocked rest, w) p h = keep_rest-WellFormed fd conn rest w s h
  after_send-WellFormed fd conn s (broken, w) p h =
      disconnect_client-WellFormed fd (put kernel redis heap fd conn w s)
        (put-WellFormed fd conn w s p h)
  after_send-WellFormed fd conn s (out_of_fuel, w) p h = put-WellFormed fd conn w s p h

  pub send_to_client-WellFormed :
      (fd : ℕ) (msg : Bytes) (s : Gateway kernel redis heap)
      → WellFormed s
      → WellFormed (send_to_client kernel redis heap fd msg s)
  unfolding send_to_client send_on
  send_to_client-WellFormed fd msg s h = elim (Option-cases (find ℕ_discrete fd s.connections)) [
    | inl e ↦ rw (e, send_to_client) h
    | inr (conn, e) ↦
        let p = find-IsPending fd conn s h e in
        let bytes = pack conn msg in
        rw (e, send_to_client)
          (if_split WellFormed (is_empty conn.write_buffer) _ _
            (λ b. after_send-WellFormed fd conn s (write_all kernel fd bytes s.world) p h)
            (λ b.
              put-WellFormed fd (record conn { write_buffer = conn.write_buffer ++ bytes }) s.world
                s (λ x. p b) h))
  ]

  after_flush-WellFormed :
      (fd : ℕ) (conn : Connection) (s : Gateway kernel redis heap) (r : WriteEnd × World)
      → IsPending conn
      → conn.write_pending ≡ true
      → WellFormed s
      → WellFormed (after_flush kernel redis heap fd conn s r)
  unfolding after_flush all_flushed
  after_flush-WellFormed fd conn s (all_written, w) p e h =
      put-WellFormed fd (record conn { write_buffer = []; write_pending = false })
        (watch_input fd w).1 s (λ x. absurd (cc (x))) h
  after_flush-WellFormed fd conn s (blocked rest, w) p e h =
      put-WellFormed fd (record conn { write_buffer = rest }) w s (λ x. e) h
  after_flush-WellFormed fd conn s (broken, w) p e h =
      disconnect_client-WellFormed fd (put kernel redis heap fd conn w s)
        (put-WellFormed fd conn w s p h)
  after_flush-WellFormed fd conn s (out_of_fuel, w) p e h = put-WellFormed fd conn w s p h

  flush-WellFormed :
      (fd : ℕ) (conn : Connection) (buffer : Bytes) (s : Gateway kernel redis heap)
      → conn.write_buffer ≡ buffer
      → IsPending conn
      → WellFormed s
      → WellFormed (after_flush kernel redis heap fd conn s (write_all kernel fd buffer s.world))
  unfolding write_all after_flush all_flushed
  flush-WellFormed fd conn [] s e p h =
      put-WellFormed fd (record conn { write_buffer = []; write_pending = false })
        (watch_input fd s.world).1 s (λ x. absurd (cc (x))) h
  flush-WellFormed fd conn (b ∷ bs) s e p h =
      after_flush-WellFormed fd conn s (write_all kernel fd (b ∷ bs) s.world) p (p (rw e refl)) h

  pub handle_write-WellFormed :
      (fd : ℕ) (s : Gateway kernel redis heap)
      → WellFormed s
      → WellFormed (handle_write kernel redis heap fd s)
  unfolding handle_write
  handle_write-WellFormed fd s h = elim (Option-cases (find ℕ_discrete fd s.connections)) [
    | inl e ↦ rw (e, handle_write) h
    | inr (conn, e) ↦
        rw (e, handle_write)
          (flush-WellFormed fd conn conn.write_buffer s refl (find-IsPending fd conn s h e) h)
  ]

  emplace-WellFormed :
      (fd : ℕ) (conn : Connection) (s : Gateway kernel redis heap)
      → IsPending conn
      → WellFormed s
      → WellFormed (emplace kernel redis heap fd conn s)
  unfolding emplace
  emplace-WellFormed fd conn s p h = elim (Option-cases (find ℕ_discrete fd s.connections)) [
    | inl e ↦ rw (e, emplace) (put-WellFormed fd conn s.world s p h)
    | inr (c, e) ↦ rw (e, emplace) h
  ]

  pub handle_accept-WellFormed :
      (accepted : Option ℕ) (unblocked : Bool) (now clock : ℕ) (s : Gateway kernel redis heap)
      → WellFormed s
      → WellFormed (handle_accept kernel redis heap accepted unblocked now clock s)
  unfolding handle_accept new_connection
  handle_accept-WellFormed none unblocked now clock s h = h
  handle_accept-WellFormed (some fd) unblocked now clock s h =
      let (added, w) = add_input fd s.world in
      if_both WellFormed unblocked _ _
        (if_both WellFormed added _ _
          (emplace-WellFormed fd (new_connection now clock) (record s { world = w })
            (λ x. absurd (cc (x))) h)
          h)
        h
