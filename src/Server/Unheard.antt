-- ===== src/Server/Unheard.antt =====
-- What the others do not hear of a send to one connection: no byte goes to another descriptor, and the offline messages of
-- all users stay as they are.
use distributed_im.Common.{
  ℕ, ◌≡◌, ◌≢◌, refl, ◌∙◌, inl, inr, true, Bytes, is_empty, if_both, Option-cases, if◌then◌else◌,
}
use distributed_im.Common.Assoc.{find, bytes_discrete, ℕ_discrete}
use distributed_im.Priority.{HeapLibrary}
use distributed_im.Redis.{RedisServer}
use distributed_im.Redis.Fifo.{ListServer}
use distributed_im.Redis.Kept.{SameQueues, user_logout-queues}
use distributed_im.Server.{Connection, Kernel}
use distributed_im.Server.Written.{write_all-keeps}
use distributed_im.Server.Send.{
  WriteEnd, all_written, broken, out_of_fuel, blocked, write_all, pack, Gateway, log_out,
  disconnect_client, put, keep_rest, after_send, send_on, send_to_client,
}

-- A system call on one descriptor gives no bytes to another.
pub record Separate (kernel : Kernel) : Type 0 where
  pub write-other :
      (fd j : ℕ) (bytes : Bytes) (w : kernel.World)
      → fd ≢ j
      → kernel.written j (kernel.write fd bytes w).1 ≡ kernel.written j w
  pub watch_both-other :
      (fd j : ℕ) (w : kernel.World)
      → fd ≢ j
      → kernel.written j (kernel.watch_both fd w).1 ≡ kernel.written j w
  pub unwatch-other :
      (fd j : ℕ) (w : kernel.World)
      → fd ≢ j
      → kernel.written j (kernel.unwatch fd w) ≡ kernel.written j w
  pub close-other :
      (fd j : ℕ) (w : kernel.World)
      → fd ≢ j
      → kernel.written j (kernel.close fd w) ≡ kernel.written j w

module _ (kernel : Kernel) (separate : Separate kernel) (redis : RedisServer)
    (lists : ListServer redis) (heap : HeapLibrary) where
  open kernel use {World, written, watch_both, unwatch}

  abbrev SameWritten : ℕ → World → World → Type 0
  SameWritten fd w w' = (j : ℕ) → fd ≢ j → written j w' ≡ written j w

  abbrev pub Unheard : ℕ → Gateway kernel redis heap → Gateway kernel redis heap → Type 0
  Unheard fd s s' = SameQueues redis lists s.redis s'.redis × SameWritten fd s.world s'.world

  pub Unheard-refl : (fd : ℕ) (s : Gateway kernel redis heap) → Unheard fd s s
  Unheard-refl fd s = ((λ n. refl), (λ j n. refl))

  pub Unheard-trans :
      (fd : ℕ) (s s1 s2 : Gateway kernel redis heap)
      → Unheard fd s s1
      → Unheard fd s1 s2
      → Unheard fd s s2
  Unheard-trans fd s s1 s2 (q, w) (q1, w1) = ((λ n. q1 n ∙ q n), (λ j n. w1 j n ∙ w j n))

  log_out-Unheard :
      (username : Bytes) (fd at : ℕ) (s : Gateway kernel redis heap)
      → Unheard fd s (log_out kernel redis heap username at s)
  unfolding log_out
  log_out-Unheard username fd at s = elim (Option-cases (find bytes_discrete username s.user_map)) [
    | inl e ↦ rw (e, log_out) (Unheard-refl fd s)
    | inr (fds, e) ↦
        rw (e, log_out)
          (user_logout-queues redis lists username s.gateway_id at s.redis, (λ j n. refl))
  ]

  disconnect_client-Unheard :
      (fd : ℕ) (s : Gateway kernel redis heap)
      → Unheard fd s (disconnect_client kernel redis heap fd s)
  unfolding disconnect_client
  disconnect_client-Unheard fd s = elim (Option-cases (find ℕ_discrete fd s.connections)) [
    | inl e ↦ rw (e, disconnect_client) (Unheard-refl fd s)
    | inr (conn, e) ↦
        let s1 =
          if is_empty conn.username then s else log_out kernel redis heap conn.username fd s in
        let (q, w) : Unheard fd s s1 =
          if_both (Unheard fd s) (is_empty conn.username) _ _ (Unheard-refl fd s)
            (log_out-Unheard conn.username fd fd s) in
        rw (e, disconnect_client)
          (
            q,
            λ j n.
                separate.close-other fd j (unwatch fd s1.world) n
                ∙ separate.unwatch-other fd j s1.world n
                ∙ w j n,
          )
  ]

  put_disconnect-Unheard :
      (fd : ℕ) (conn : Connection) (w : World) (s : Gateway kernel redis heap)
      → SameWritten fd s.world w
      → Unheard fd s (disconnect_client kernel redis heap fd (put kernel redis heap fd conn w s))
  put_disconnect-Unheard fd conn w s h =
      let s1 = put kernel redis heap fd conn w s in
      Unheard-trans fd s s1 (disconnect_client kernel redis heap fd s1) ((λ n. refl), h)
        (disconnect_client-Unheard fd s1)

  keep_rest-Unheard :
      (fd : ℕ) (conn : Connection) (rest : Bytes) (w : World) (s : Gateway kernel redis heap)
      → SameWritten fd s.world w
      → Unheard fd s (keep_rest kernel redis heap fd conn rest w s)
  unfolding keep_rest
  keep_rest-Unheard fd conn rest w s h =
      let waiting = record conn { write_buffer = rest; write_pending = true } in
      let w1 = (watch_both fd w).1 in
      let h1 : SameWritten fd s.world w1 = λ j n. separate.watch_both-other fd j w n ∙ h j n in
      if_both (Unheard fd s) conn.write_pending _ _ ((λ n. refl), h)
        (if_both (Unheard fd s) (watch_both fd w).0 _ _ ((λ n. refl), h1)
          (put_disconnect-Unheard fd waiting w1 s h1))

  after_send-Unheard :
      (fd : ℕ) (conn : Connection) (s : Gateway kernel redis heap) (r : WriteEnd × World)
      → SameWritten fd s.world r.1
      → Unheard fd s (after_send kernel redis heap fd conn s r)
  unfolding after_send
  after_send-Unheard fd conn s (all_written, w) h = ((λ n. refl), h)
  after_send-Unheard fd conn s (blocked rest, w) h = keep_rest-Unheard fd conn rest w s h
  after_send-Unheard fd conn s (broken, w) h = put_disconnect-Unheard fd conn w s h
  after_send-Unheard fd conn s (out_of_fuel, w) h = ((λ n. refl), h)

  pub send_to_client-Unheard :
      (fd : ℕ) (msg : Bytes) (s : Gateway kernel redis heap)
      → Unheard fd s (send_to_client kernel redis heap fd msg s)
  unfolding send_to_client send_on
  send_to_client-Unheard fd msg s = elim (Option-cases (find ℕ_discrete fd s.connections)) [
    | inl e ↦ rw (e, send_to_client) (Unheard-refl fd s)
    | inr (conn, e) ↦
        let bytes = pack conn msg in
        let same : SameWritten fd s.world (write_all kernel fd bytes s.world).1 = λ j n.
          write_all-keeps kernel (λ w. written j w ≡ written j s.world) fd
            (λ rest w h. separate.write-other fd j rest w n ∙ h) bytes s.world refl in
        rw (e, send_to_client)
          (if_both (Unheard fd s) (is_empty conn.write_buffer) _ _
            (after_send-Unheard fd conn s (write_all kernel fd bytes s.world) same)
            (Unheard-refl fd s))
  ]
