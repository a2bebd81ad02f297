-- ===== src/Server/WellFormed/Reading.antt =====
-- Reading keeps the invariant of the connections, whatever the bytes are.
use distributed_im.Common.{
  ℕ, zero, suc, ◌+◌, inl, inr, [], ◌∷◌, Bytes, length, take, drop, ltb, if_both, Option-cases,
}
use distributed_im.Common.Assoc.{find, ℕ_discrete}
use distributed_im.Common.Text.{find_text}
use distributed_im.Json.{JsonLibrary}
use distributed_im.Priority.{HeapLibrary}
use distributed_im.Redis.{RedisServer}
use distributed_im.Server.{Connection, Kernel}
use distributed_im.Server.Send.{Gateway, put}
use distributed_im.Server.Delivery.{IsPending}
use distributed_im.Server.Read.{
  Received, ReadEnd, no_more, closed, failed, Outcome, goes_on, returns, dangling, starved, after,
  Setup, with_conn, message, take_line, line_loop, check_overflow, handle_lines, read_ends,
}
use distributed_im.Server.WellFormed.{
  WellFormed, put-WellFormed, find-IsPending, disconnect_client-WellFormed,
}
use distributed_im.Server.WellFormed.Messages.{handle_message-WellFormed}

-- What holds of the state with which a loop ends.
abbrev pub Holds : {S : Type 0} → (S → Type 0) → Outcome S → Type 0
Holds Q (goes_on s) = Q s
Holds Q (returns s) = Q s
Holds Q dangling = Unit {0}
Holds Q starved = Unit {0}

pub after-Holds :
    {S : Type 0} (Q : S → Type 0) (next : S → Outcome S) (o : Outcome S)
    → Holds Q o
    → ((s : S) → Q s → Holds Q (next s))
    → Holds Q (after next o)
unfolding after
after-Holds Q next (goes_on s) h k = k s h
after-Holds Q next (returns s) h k = h
after-Holds Q next dangling h k = tt
after-Holds Q next starved h k = tt

module _ (kernel : Kernel) (redis : RedisServer) (heap : HeapLibrary) (json : JsonLibrary)
    (setup : Setup) where
  abbrev Q : Gateway kernel redis heap → Type 0
  Q = WellFormed kernel redis heap

  pub with_conn-Holds :
      (fd : ℕ) (use_it : Connection → Outcome (Gateway kernel redis heap))
      (s : Gateway kernel redis heap)
      → Q s
      → ((conn : Connection) → IsPending conn → Holds Q (use_it conn))
      → Holds Q (with_conn kernel redis heap json setup fd use_it s)
  unfolding with_conn
  with_conn-Holds fd use_it s h k = elim (Option-cases (find ℕ_discrete fd s.connections)) [
    | inl e ↦ rw (e, with_conn) tt
    | inr (conn, e) ↦ rw (e, with_conn) (k conn (find-IsPending kernel redis heap fd conn s h e))
  ]

  pub put_here-WellFormed :
      (fd : ℕ) (conn : Connection) (s : Gateway kernel redis heap)
      → IsPending conn
      → Q s
      → Q (put kernel redis heap fd conn s.world s)
  put_here-WellFormed fd conn s = put-WellFormed kernel redis heap fd conn s.world s

  pub message-WellFormed :
      (fd : ℕ) (r : Received) (conn : Connection) (msg : Bytes) (s : Gateway kernel redis heap)
      → IsPending conn
      → Q s
      → Q (message kernel redis heap json setup fd r conn msg s)
  unfolding message
  message-WellFormed fd r conn msg s p h =
      handle_message-WellFormed kernel redis heap json setup.order setup.rate_limit_enabled r.now
        r.clock fd conn msg s p h

  take_line-WellFormed :
      (fd : ℕ) (r : Received) (pos : ℕ) (conn : Connection) (s : Gateway kernel redis heap)
      → IsPending conn
      → Q s
      → Q (take_line kernel redis heap json setup fd r pos conn s)
  unfolding take_line
  take_line-WellFormed fd r pos conn s p h =
      let conn1 = record conn { read_buffer = drop (pos + 1) conn.read_buffer } in
      message-WellFormed fd r conn1 (take pos conn.read_buffer) _ p
        (put_here-WellFormed fd conn1 s p h)

  line_loop-Holds :
      (fuel fd : ℕ) (r : Received) (s : Gateway kernel redis heap)
      → Q s
      → Holds Q (line_loop kernel redis heap json setup fuel fd r s)
  unfolding line_loop
  line_loop-Holds zero fd r s h = tt
  line_loop-Holds (suc fuel) fd r s h = with_conn-Holds fd _ s h (λ conn p.
      elim (Option-cases (find_text (10 ∷ []) conn.read_buffer)) [
        | inl n ↦ rw (n) h
        | inr (pos, f) ↦ rw (f) (
            line_loop-Holds fuel fd r (take_line kernel redis heap json setup fd r pos conn s)
              (take_line-WellFormed fd r pos conn s p h))
      ])

  check_overflow-Holds :
      (fd : ℕ) (s : Gateway kernel redis heap)
      → Q s
      → Holds Q (check_overflow kernel redis heap json setup fd s)
  unfolding check_overflow
  check_overflow-Holds fd s h = with_conn-Holds fd _ s h (λ conn p.
      if_both (Holds Q) (ltb 65536 (length conn.read_buffer)) _ _
        (disconnect_client-WellFormed kernel redis heap fd s h) h)

  pub handle_lines-Holds :
      (fd : ℕ) (r : Received) (s : Gateway kernel redis heap)
      → Q s
      → Holds Q (handle_lines kernel redis heap json setup fd r s)
  unfolding handle_lines
  handle_lines-Holds fd r s h = with_conn-Holds fd _ s h (λ conn p.
      after-Holds Q (check_overflow kernel redis heap json setup fd) _
        (line_loop-Holds (suc (length conn.read_buffer)) fd r s h) (check_overflow-Holds fd))

  pub read_ends-WellFormed :
      (end : ReadEnd) (fd : ℕ) (s : Gateway kernel redis heap)
      → Q s
      → Q (read_ends kernel redis heap json setup end fd s)
  unfolding read_ends
  read_ends-WellFormed no_more fd s h = h
  read_ends-WellFormed closed fd s h = disconnect_client-WellFormed kernel redis heap fd s h
  read_ends-WellFormed failed fd s h = disconnect_client-WellFormed kernel redis heap fd s h
