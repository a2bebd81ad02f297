-- ===== src/Server/WellFormed/Steps.antt =====
-- The steps of a round keep the invariant of the connections.
use distributed_im.Common.{
  ℕ, zero, suc, inl, inr, Bool, List, [], ◌∷◌, Option, none, some, Bytes, if_both, Bool-cases,
}
use distributed_im.Codec.Handshake.{is_upgrade_request}
use distributed_im.Ack.{AckEntry, get_pending_retries, drain_dead_letters}
use distributed_im.Priority.{PriorityMessage, HeapLibrary, queue_empty, queue_pop}
use distributed_im.Redis.{RedisServer}
use distributed_im.Server.{Connection, Kernel}
use distributed_im.Server.Send.{WriteEnd, all_written, broken, out_of_fuel, blocked, Gateway}
use distributed_im.Server.Handlers.{
  after_response, try_websocket_upgrade, retry_each, bury_each, check_ack_retries, send_queued,
  deliver_queue, disconnect_each,
}
use distributed_im.Server.Delivery.{IsPending}
use distributed_im.Server.WellFormed.{
  WellFormed, put-WellFormed, disconnect_client-WellFormed, send_to_client-WellFormed,
}

module _ (kernel : Kernel) (redis : RedisServer) (heap : HeapLibrary) where
  abbrev Q : Gateway kernel redis heap → Type 0
  Q = WellFormed kernel redis heap

  retry_each-WellFormed :
      (now : ℕ) (es : List AckEntry) (s : Gateway kernel redis heap)
      → Q s
      → Q (retry_each kernel redis heap now es s)
  unfolding retry_each
  retry_each-WellFormed now [] s h = h
  retry_each-WellFormed now (e ∷ es) s h =
      retry_each-WellFormed now es _
        (send_to_client-WellFormed kernel redis heap e.target_fd e.content s h)

  bury_each-WellFormed :
      (es : List AckEntry) (s : Gateway kernel redis heap)
      → Q s
      → Q (bury_each kernel redis heap es s)
  unfolding bury_each
  bury_each-WellFormed [] s h = h
  bury_each-WellFormed (e ∷ es) s h = bury_each-WellFormed es _ h

  pub check_ack_retries-WellFormed :
      (now : ℕ) (s : Gateway kernel redis heap)
      → Q s
      → Q (check_ack_retries kernel redis heap now s)
  unfolding check_ack_retries
  check_ack_retries-WellFormed now s h =
      let due = get_pending_retries now s.ack_tracker in
      let s1 = retry_each kernel redis heap now due s in
      let (dead, left) = drain_dead_letters s1.ack_tracker in
      bury_each-WellFormed dead (record s1 { ack_tracker = left })
        (retry_each-WellFormed now due s h)

  send_queued-WellFormed :
      (popped : Option PriorityMessage × heap.Heap) (s : Gateway kernel redis heap)
      → Q s
      → Q (send_queued kernel redis heap popped s)
  unfolding send_queued
  send_queued-WellFormed (none, q) s h = h
  send_queued-WellFormed (some m, q) s h =
      send_to_client-WellFormed kernel redis heap m.target_fd m.content
        (record s { priority_q = q }) h

  pub deliver_queue-WellFormed :
      (fuel : ℕ) (s : Gateway kernel redis heap) → Q s → Q (deliver_queue kernel redis heap fuel s)
  unfolding deliver_queue
  deliver_queue-WellFormed zero s h = h
  deliver_queue-WellFormed (suc fuel) s h = elim (Bool-cases (queue_empty heap s.priority_q)) [
    | inl e ↦ rw (e, deliver_queue) h
    | inr e ↦
        rw (e, deliver_queue)
          (deliver_queue-WellFormed fuel _
            (send_queued-WellFormed (queue_pop heap s.priority_q) s h))
  ]

  pub disconnect_each-WellFormed :
      (fds : List ℕ) (s : Gateway kernel redis heap)
      → Q s
      → Q (disconnect_each kernel redis heap fds s)
  unfolding disconnect_each
  disconnect_each-WellFormed [] s h = h
  disconnect_each-WellFormed (fd ∷ fds) s h =
      disconnect_each-WellFormed fds _ (disconnect_client-WellFormed kernel redis heap fd s h)

  upgrade-WellFormed :
      (fd : ℕ) (conn : Connection) (s : Gateway kernel redis heap) (r : WriteEnd × kernel.World)
      → IsPending conn
      → Q s
      → Q (after_response kernel redis heap fd conn s r).1
  unfolding after_response
  upgrade-WellFormed fd conn s (all_written, w) p h = put-WellFormed kernel redis heap fd _ w s p h
  upgrade-WellFormed fd conn s (blocked rest, w) p h = h
  upgrade-WellFormed fd conn s (broken, w) p h = h
  upgrade-WellFormed fd conn s (out_of_fuel, w) p h = h

  pub try_websocket_upgrade-WellFormed :
      (sha1 : Bytes → Bytes) (fd : ℕ) (conn : Connection) (request : Bytes)
      (s : Gateway kernel redis heap)
      → IsPending conn
      → Q s
      → Q (try_websocket_upgrade kernel redis heap sha1 fd conn request s).1
  unfolding try_websocket_upgrade
  try_websocket_upgrade-WellFormed sha1 fd conn request s p h =
      if_both {A = Bool × Gateway kernel redis heap} (λ r. Q r.1) (is_upgrade_request request) _ _
        (upgrade-WellFormed fd conn s _ p h) h
