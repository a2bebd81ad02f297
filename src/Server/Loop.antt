-- ===== src/Server/Loop.antt =====
-- The steps of the server's loop on the ACK tracker and on the message queue.
use mathlib.Core.Option
use mathlib.Core.List.{Perm}
use distributed_im.Common.{
  ℕ, zero, suc, ◌≤◌, ◌≡◌, refl, ap, ◌∙◌, inl, inr, List, [], ◌∷◌, Option, none, some, Bytes, arith,
  ◌==◌, Bool-cases,
}
use distributed_im.Common.Assoc.{bytes_discrete, NodupKeys}
use distributed_im.Ack.{AckEntry, get_pending_retries, mark_retry_done, drain_dead_letters}
use distributed_im.Ack.Lookup.{lookup, alive}
use distributed_im.Ack.Retries.{mark_retries, IsKeyed, pass_entry, retry_pass}
use distributed_im.Priority.{PriorityMessage, HeapLibrary, queue_empty, queue_pop}
use distributed_im.Priority.Drain.{queue_pop_full, drain, drain_lem, IsByPriority}
use distributed_im.Redis.{RedisServer}
use distributed_im.Server.{Kernel}
use distributed_im.Server.Send.{Gateway, send_to_client}
use distributed_im.Server.Untouched.{send_to_client-SameButAt}
use distributed_im.Server.Handlers.{
  retry_each, bury_each, check_ack_retries, send_queued, deliver_queue,
}

module _ (kernel : Kernel) (redis : RedisServer) (heap : HeapLibrary) where
  open heap use {Heap, size, pop, contents}

  retry_each-tracker :
      (now : ℕ) (es : List AckEntry) (s : Gateway kernel redis heap)
      → (retry_each kernel redis heap now es s).ack_tracker ≡ mark_retries now es s.ack_tracker
  unfolding retry_each mark_retries
  retry_each-tracker now [] s = refl
  retry_each-tracker now (e ∷ es) s =
      let s1 = send_to_client kernel redis heap e.target_fd e.content s in
      retry_each-tracker now es
        (record s1 { ack_tracker = mark_retry_done e.msg_id now s1.ack_tracker })
      ∙ ap (λ m. mark_retries now es (mark_retry_done e.msg_id now m))
          (send_to_client-SameButAt kernel redis heap e.target_fd e.content s).0

  bury_each-tracker :
      (es : List AckEntry) (s : Gateway kernel redis heap)
      → (bury_each kernel redis heap es s).ack_tracker ≡ s.ack_tracker
  unfolding bury_each
  bury_each-tracker [] s = refl
  bury_each-tracker (e ∷ es) s = bury_each-tracker es _

  -- With the entries once each under their own ids, a check of the retries marks every due entry once,
  -- gives up those without a retry left, and leaves the others as they are, whatever the sends to the
  -- clients and the pushes to Redis do.
  pub check_ack_retries_lem :
      (now : ℕ) (k : Bytes) (s : Gateway kernel redis heap)
      → IsKeyed s.ack_tracker
      → NodupKeys bytes_discrete s.ack_tracker
      → lookup k (check_ack_retries kernel redis heap now s).ack_tracker
        ≡ alive (Option.map (pass_entry now) (lookup k s.ack_tracker))
  unfolding check_ack_retries
  check_ack_retries_lem now k s v n =
      let s1 = retry_each kernel redis heap now (get_pending_retries now s.ack_tracker) s in
      let (dead, left) = drain_dead_letters s1.ack_tracker in
      ap (lookup k) (bury_each-tracker dead (record s1 { ack_tracker = left }))
      ∙ ap (λ m. lookup k (drain_dead_letters m).1)
          (retry_each-tracker now (get_pending_retries now s.ack_tracker) s)
      ∙ retry_pass now k s.ack_tracker v n

  send_queued-queue :
      (r : Option PriorityMessage × Heap) (s : Gateway kernel redis heap)
      → (send_queued kernel redis heap r s).priority_q ≡ r.1
  unfolding send_queued
  send_queued-queue (none, q) s = refl
  send_queued-queue (some m, q) s =
      (send_to_client-SameButAt kernel redis heap m.target_fd m.content
        (record s { priority_q = q })).1

  deliver_loop :
      (fuel : ℕ) (s : Gateway kernel redis heap)
      → size s.priority_q ≤ fuel
      → size (deliver_queue kernel redis heap fuel s).priority_q ≡ 0
  unfolding deliver_queue queue_empty
  deliver_loop zero s h = omega arith
  deliver_loop (suc fuel) s h = elim (Bool-cases (size s.priority_q == 0)) [
    | inl e ↦ rw (e, deliver_queue) (ground arith)
    | inr e ↦
        let popped = ap (λ r. r.1) (queue_pop_full heap s.priority_q (ground arith)) in
        let left = send_queued-queue (queue_pop heap s.priority_q) s ∙ popped in
        rw (e, deliver_queue)
          (deliver_loop fuel (send_queued kernel redis heap (queue_pop heap s.priority_q) s)
            (rw left (ground (arith, heap.size-pop s.priority_q))))
  ]

  -- The loop over the queue ends within as many rounds as there are messages, and leaves the queue empty,
  -- whatever happens to the connections on the way.
  pub deliver_queue-empty :
      (s : Gateway kernel redis heap)
      → size (deliver_queue kernel redis heap (size s.priority_q) s).priority_q ≡ 0
  deliver_queue-empty s = deliver_loop (size s.priority_q) s (omega arith)

  -- The messages of a list go out one after the other, and each takes the front of the queue with it.
  unfoldable pub send_in_turn :
      List PriorityMessage → Gateway kernel redis heap → Gateway kernel redis heap
  send_in_turn [] s = s
  send_in_turn (m ∷ ms) s = send_in_turn ms (
      send_to_client kernel redis heap m.target_fd m.content
        (record s { priority_q = pop s.priority_q }))

  deliver_queue-drain :
      (fuel : ℕ) (s : Gateway kernel redis heap)
      → deliver_queue kernel redis heap fuel s ≡ send_in_turn (drain heap fuel s.priority_q).0 s
  unfolding deliver_queue send_in_turn queue_empty send_queued drain
  deliver_queue-drain zero s = refl
  deliver_queue-drain (suc fuel) s = elim (Bool-cases (size s.priority_q == 0)) [
    | inl e ↦ rw (e, deliver_queue) refl
    | inr e ↦
        let front = heap.top s.priority_q in
        let s1 : Gateway kernel redis heap = record s { priority_q = pop s.priority_q } in
        let s2 = send_to_client kernel redis heap front.target_fd front.content s1 in
        let left =
          (send_to_client-SameButAt kernel redis heap front.target_fd front.content s1).1 in
        let full = queue_pop_full heap s.priority_q (ground arith) in
        rw (e, deliver_queue)
          (ap (λ r. deliver_queue kernel redis heap fuel (send_queued kernel redis heap r s)) full
            ∙ deliver_queue-drain fuel s2
            ∙ ap (λ q. send_in_turn (drain heap fuel q).0 s2) left)
  ]

  -- The loop over the queue sends every message that is in the queue once, to its own descriptor, and no message behind a
  -- less urgent one; it does nothing else.
  pub deliver_queue_lem :
      (s : Gateway kernel redis heap)
      → (sent : List PriorityMessage) × Perm (contents s.priority_q) sent
        × IsByPriority sent
        × (deliver_queue kernel redis heap (size s.priority_q) s ≡ send_in_turn sent s)
  deliver_queue_lem s =
      let (same, sorted, done) = drain_lem heap s.priority_q in
      (
        (drain heap (size s.priority_q) s.priority_q).0,
        same,
        sorted,
        deliver_queue-drain (size s.priority_q) s,
      )
