-- ===== src/Server/Delivery.antt =====
-- Bytes reach a connection in the order in which they were sent.
use distributed_im.Common.{
  ℕ, ◌≡◌, refl, ap, ◌∙◌, ◌⊎◌, inl, inr, true, false, [], ◌∷◌, ◌++◌, none, some, Bytes, is_empty,
  append-nil, Option-cases, Bool-cases,
}
use distributed_im.Common.Assoc.{find, ℕ_discrete, find-insert_self, find-erase_self}
use distributed_im.Priority.{HeapLibrary}
use distributed_im.Redis.{RedisServer}
use distributed_im.Server.{Connection, Kernel}
use distributed_im.Server.Written.{Flushed, write_all_lem, write_all-wants_output}
use distributed_im.Server.Send.{
  WriteEnd, all_written, broken, out_of_fuel, blocked, write_loop, write_all, pack, Gateway,
  disconnect_client, put, keep_rest, after_send, send_on, send_to_client, all_flushed, after_flush,
  handle_write,
}

-- A connection with bytes that wait for output is marked so.
abbrev pub IsPending : Connection → Type 0
IsPending c = is_empty c.write_buffer ≡ false → c.write_pending ≡ true

module _ (kernel : Kernel) (redis : RedisServer) (heap : HeapLibrary) where
  open kernel use {World, watch_both, watch_input, written, wants_output}

  -- Bytes that wait are marked, and for a marked connection epoll reports when it is writable.
  abbrev pub IsArmed : ℕ → World → Connection → Type 0
  IsArmed fd w c = IsPending c × (c.write_pending ≡ true → wants_output fd w ≡ true)

  -- The connection is there, armed, and what was taken for it and what waits in its buffer are `bytes`.
  abbrev pub Kept : ℕ → Bytes → Gateway kernel redis heap → Type 0
  Kept fd bytes s =
      (c : Connection) × (find ℕ_discrete fd s.connections ≡ some c)
      × (written fd s.world ++ c.write_buffer ≡ bytes)
      × IsArmed fd s.world c

  pub disconnect_client-find :
      (fd : ℕ) (s : Gateway kernel redis heap)
      → find ℕ_discrete fd (disconnect_client kernel redis heap fd s).connections ≡ none
  unfolding disconnect_client
  disconnect_client-find fd s = elim (Option-cases (find ℕ_discrete fd s.connections)) [
    | inl e ↦ rw (e, disconnect_client) e
    | inr (c, e) ↦ rw (e, disconnect_client) (find-erase_self ℕ_discrete fd _)
  ]

  keep_rest_lem :
      (fd : ℕ) (conn : Connection) (s : Gateway kernel redis heap) (bytes rest : Bytes) (w : World)
      → (conn.write_pending ≡ true → wants_output fd w ≡ true)
      → written fd w ++ rest ≡ bytes
      → let s' = keep_rest kernel redis heap fd conn rest w s in
        (Kept fd bytes s'
          ⊎ (find ℕ_discrete fd s'.connections ≡ none) × ((watch_both fd w).0 ≡ false))
  unfolding keep_rest
  keep_rest_lem fd conn s bytes rest w armed f = elim (Bool-cases conn.write_pending) [
    | inl e ↦
        rw (e, keep_rest)
          (inl (
            record conn { write_buffer = rest; write_pending = true },
            find-insert_self ℕ_discrete fd _ s.connections,
            f,
            ((λ h. refl), (λ h. armed e)),
          ))
    | inr e ↦ elim (Bool-cases (watch_both fd w).0) [
      | inl ok ↦
          rw (e, ok)
            (inl (
              record conn { write_buffer = rest; write_pending = true },
              find-insert_self ℕ_discrete fd _ s.connections,
              ap (λ l. l ++ rest) (kernel.watch_both-written fd w) ∙ f,
              ((λ h. refl), (λ h. kernel.watch_both-wants_output fd w ok)),
            ))
      | inr bad ↦ rw (e, bad) (inr (disconnect_client-find fd _, refl))
    ]
  ]

  after_send_lem :
      (fd : ℕ) (conn : Connection) (s : Gateway kernel redis heap) (bytes : Bytes)
      (r : WriteEnd × World)
      → conn.write_buffer ≡ []
      → (conn.write_pending ≡ true → wants_output fd r.1 ≡ true)
      → Flushed kernel fd s.world bytes r
      → let s' = after_send kernel redis heap fd conn s r in
        (Kept fd (written fd s.world ++ bytes) s'
          ⊎ (find ℕ_discrete fd s'.connections ≡ none)
            × ((r.0 ≡ broken) ⊎ ((watch_both fd r.1).0 ≡ false)))
  unfolding after_send
  after_send_lem fd conn s bytes (all_written, w) empty armed f = inl (
    conn,
    find-insert_self ℕ_discrete fd conn s.connections,
    ap (λ l. written fd w ++ l) empty ∙ append-nil (written fd w) ∙ f,
    ((λ h. absurd (cc (ap is_empty empty))), armed),
  )
  after_send_lem fd conn s bytes (blocked rest, w) empty armed f =
      elim (keep_rest_lem fd conn s (written fd s.world ++ bytes) rest w armed f) [
        | inl kept ↦ inl kept
        | inr (gone, bad) ↦ inr (gone, inr bad)
      ]
  after_send_lem fd conn s bytes (broken, w) empty armed f =
      inr (disconnect_client-find fd (put kernel redis heap fd conn w s), inl refl)
  after_send_lem fd conn s bytes (out_of_fuel, w) empty armed f = absurd f

  send_on_lem :
      (fd : ℕ) (msg : Bytes) (s : Gateway kernel redis heap) (conn : Connection) (buffer : Bytes)
      → conn.write_buffer ≡ buffer
      → IsArmed fd s.world conn
      → let s' = send_on kernel redis heap fd msg s conn in
        let r = write_all kernel fd (pack conn msg) s.world in
        (Kept fd (written fd s.world ++ (buffer ++ pack conn msg)) s'
          ⊎ (find ℕ_discrete fd s'.connections ≡ none)
            × ((r.0 ≡ broken) ⊎ ((watch_both fd r.1).0 ≡ false)))
  unfolding send_on
  send_on_lem fd msg s conn [] e pend =
      let blank : is_empty conn.write_buffer ≡ true = ap is_empty e in
      rw (blank, send_on)
        (after_send_lem fd conn s (pack conn msg) (write_all kernel fd (pack conn msg) s.world) e
          (λ h. write_all-wants_output kernel fd (pack conn msg) s.world ∙ pend.1 h)
          (write_all_lem kernel fd (pack conn msg) s.world))
  send_on_lem fd msg s conn (b ∷ buffer) e pend =
      let waiting : is_empty conn.write_buffer ≡ false = ap is_empty e in
      rw (waiting, send_on)
        (inl (
          record conn { write_buffer = conn.write_buffer ++ pack conn msg },
          find-insert_self ℕ_discrete fd _ s.connections,
          ap (λ l. written fd s.world ++ (l ++ pack conn msg)) e,
          ((λ h. pend.0 waiting), pend.1),
        ))

  after_flush_lem :
      (fd : ℕ) (conn : Connection) (s : Gateway kernel redis heap) (bytes : Bytes)
      (r : WriteEnd × World)
      → conn.write_pending ≡ true
      → wants_output fd r.1 ≡ true
      → Flushed kernel fd s.world bytes r
      → let s' = after_flush kernel redis heap fd conn s r in
        (Kept fd (written fd s.world ++ bytes) s'
          ⊎ (find ℕ_discrete fd s'.connections ≡ none) × (r.0 ≡ broken))
  unfolding after_flush all_flushed
  after_flush_lem fd conn s bytes (all_written, w) pend armed f = inl (
    record conn { write_buffer = []; write_pending = false },
    find-insert_self ℕ_discrete fd _ s.connections,
    append-nil _ ∙ kernel.watch_input-written fd w ∙ f,
    ((λ h. absurd (cc)), (λ h. absurd (cc (h)))),
  )
  after_flush_lem fd conn s bytes (blocked rest, w) pend armed f = inl (
    record conn { write_buffer = rest },
    find-insert_self ℕ_discrete fd _ s.connections,
    f,
    ((λ h. pend), (λ h. armed)),
  )
  after_flush_lem fd conn s bytes (broken, w) pend armed f =
      inr (disconnect_client-find fd (put kernel redis heap fd conn w s), refl)
  after_flush_lem fd conn s bytes (out_of_fuel, w) pend armed f = absurd f

  flush_lem :
      (fd : ℕ) (conn : Connection) (s : Gateway kernel redis heap) (buffer : Bytes)
      → conn.write_buffer ≡ buffer
      → IsArmed fd s.world conn
      → let r = write_all kernel fd buffer s.world in
        let s' = after_flush kernel redis heap fd conn s r in
        (Kept fd (written fd s.world ++ buffer) s'
          ⊎ (find ℕ_discrete fd s'.connections ≡ none) × (r.0 ≡ broken))
  unfolding after_flush all_flushed write_all write_loop
  flush_lem fd conn s [] e pend = inl (
    record conn { write_buffer = []; write_pending = false },
    find-insert_self ℕ_discrete fd _ s.connections,
    ap (λ l. l ++ []) (kernel.watch_input-written fd s.world),
    ((λ h. absurd (cc)), (λ h. absurd (cc (h)))),
  )
  flush_lem fd conn s (b ∷ buffer) e pend =
      after_flush_lem fd conn s (b ∷ buffer) (write_all kernel fd (b ∷ buffer) s.world)
        (pend.0 (ap is_empty e))
        (write_all-wants_output kernel fd (b ∷ buffer) s.world ∙ pend.1 (pend.0 (ap is_empty e)))
        (write_all_lem kernel fd (b ∷ buffer) s.world)

  -- A connection is armed if it is marked when bytes wait in its buffer, and epoll reports when it is writable if it is
  -- marked. Sending to an armed connection adds the message, packed for its protocol, behind all bytes that were sent before
  -- and loses none of them, whatever part the kernel takes at once, and the connection stays armed. Or it is closed, which
  -- only a failed `write` or `epoll_ctl` brings about.
  pub send_to_client_lem :
      (fd : ℕ) (msg : Bytes) (s : Gateway kernel redis heap) (conn : Connection)
      → find ℕ_discrete fd s.connections ≡ some conn
      → IsArmed fd s.world conn
      → let s' = send_to_client kernel redis heap fd msg s in
        let r = write_all kernel fd (pack conn msg) s.world in
        (Kept fd (written fd s.world ++ (conn.write_buffer ++ pack conn msg)) s'
          ⊎ (find ℕ_discrete fd s'.connections ≡ none)
            × ((r.0 ≡ broken) ⊎ ((watch_both fd r.1).0 ≡ false)))
  unfolding send_to_client
  send_to_client_lem fd msg s conn e pend =
      rw (e, send_to_client) (send_on_lem fd msg s conn conn.write_buffer refl pend)

  -- Flushing an armed connection, one that is marked when bytes wait and for which epoll reports when it is writable if it
  -- is marked, neither adds, nor loses, nor reorders bytes, and it stays armed. Or it is closed, which only a failed `write`
  -- brings about.
  pub handle_write_lem :
      (fd : ℕ) (s : Gateway kernel redis heap) (conn : Connection)
      → find ℕ_discrete fd s.connections ≡ some conn
      → IsArmed fd s.world conn
      → let s' = handle_write kernel redis heap fd s in
        (Kept fd (written fd s.world ++ conn.write_buffer) s'
          ⊎ (find ℕ_discrete fd s'.connections ≡ none)
            × ((write_all kernel fd conn.write_buffer s.world).0 ≡ broken))
  unfolding handle_write
  handle_write_lem fd s conn e pend =
      rw (e, handle_write) (flush_lem fd conn s conn.write_buffer refl pend)
