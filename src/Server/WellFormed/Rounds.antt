-- ===== src/Server/WellFormed/Rounds.antt =====
-- A round of the loop keeps the invariant of the connections.
use distributed_im.Common.{
  ◌+◌, ℕ, ◌≡◌, ◌&&◌, inl, inr, List, [], ◌∷◌, ◌++◌, none, some, take, drop, is_empty, if_both,
  Bool-cases, Option-cases,
}
use distributed_im.Common.Assoc.{find, ℕ_discrete}
use distributed_im.Common.Text.{codes, contains}
use distributed_im.Json.{JsonLibrary}
use distributed_im.Priority.{HeapLibrary}
use distributed_im.Redis.{RedisServer}
use distributed_im.Server.{Connection, Kernel}
use distributed_im.Server.Send.{Gateway, write_all, put}
use distributed_im.Server.Handlers.{try_websocket_upgrade}
use distributed_im.Server.Delivery.{IsPending}
use distributed_im.Server.Read.{
  Received, ReadEnd, Outcome, goes_on, returns, dangling, starved, Setup,
}
use distributed_im.Server.Read.Loop.{
  build_http_metrics_response, crlf, upgrade_at, upgraded, serve_metrics, handle_tcp_read,
  handle_read,
}
use distributed_im.Server.Read.Total.{Protocol-cases}
use distributed_im.Server.Events.{
  Round, one_round, loop, Event, incoming, client_ready, resume, read_ready, write_ready,
  handle_event, handle_events, server_round,
}
use distributed_im.Server.WellFormed.{
  WellFormed, put-WellFormed, disconnect_client-WellFormed, handle_write-WellFormed,
  handle_accept-WellFormed,
}
use distributed_im.Server.WellFormed.Finish.{finish_round-WellFormed}
use distributed_im.Server.WellFormed.Steps.{try_websocket_upgrade-WellFormed}
use distributed_im.Server.WellFormed.Frames.{handle_ws_read-Holds}
use distributed_im.Server.WellFormed.Reading.{
  Holds, after-Holds, with_conn-Holds, handle_lines-Holds, read_ends-WellFormed,
}

resume-Holds : {S : Type 0} (Q : S → Type 0) (o : Outcome S) → Holds Q o → Holds Q (resume o)
unfolding resume
resume-Holds Q (goes_on s) h = h
resume-Holds Q (returns s) h = h
resume-Holds Q dangling h = h
resume-Holds Q starved h = h

module _ (kernel : Kernel) (redis : RedisServer) (heap : HeapLibrary) (json : JsonLibrary)
    (setup : Setup) where
  abbrev Q : Gateway kernel redis heap → Type 0
  Q = WellFormed kernel redis heap

  upgraded-Holds :
      (rs : List Received) (end : ReadEnd) (fd : ℕ) (s : Gateway kernel redis heap)
      → Q s
      → Holds Q (upgraded kernel redis heap json setup rs end fd s)
  unfolding upgraded
  upgraded-Holds rs end fd s h = with_conn-Holds kernel redis heap json setup fd _ s h (λ conn p.
      let ws = record conn.ws { raw_buffer = conn.ws.raw_buffer ++ conn.read_buffer } in
      let conn1 = record conn { read_buffer = []; ws = ws } in
      if_both (Holds Q) (is_empty conn.read_buffer) _ _ h (
        handle_ws_read-Holds kernel redis heap json setup rs end fd _
          (put-WellFormed kernel redis heap fd conn1 s.world s p h)))

  serve_metrics-WellFormed :
      (fd : ℕ) (conn : Connection) (s : Gateway kernel redis heap)
      → IsPending conn
      → Q s
      → Q (serve_metrics kernel redis heap json setup fd conn s)
  unfolding serve_metrics
  serve_metrics-WellFormed fd conn s p h =
      let w = (write_all kernel fd (build_http_metrics_response setup.metrics) s.world).1 in
      let conn1 = record conn { read_buffer = [] } in
      disconnect_client-WellFormed kernel redis heap fd (put kernel redis heap fd conn1 w s)
        (put-WellFormed kernel redis heap fd conn1 w s p h)

  handle_tcp_read-Holds :
      (rs : List Received) (end : ReadEnd) (fd : ℕ) (s : Gateway kernel redis heap)
      → Q s
      → Holds Q (handle_tcp_read kernel redis heap json setup rs end fd s)
  unfolding handle_tcp_read
  handle_tcp_read-Holds [] end fd s h = read_ends-WellFormed kernel redis heap json setup end fd s h
  handle_tcp_read-Holds (r ∷ rs) end fd s h =
      let lines : (s1 : Gateway kernel redis heap) → Q s1 → Holds Q _ = λ s1 h1.
        after-Holds Q (handle_tcp_read kernel redis heap json setup rs end fd) _
          (handle_lines-Holds kernel redis heap json setup fd r s1 h1)
          (handle_tcp_read-Holds rs end fd) in
      with_conn-Holds kernel redis heap json setup fd _ s h (λ conn p.
        let conn1 = record conn {
          last_active = r.now;
          read_buffer = conn.read_buffer ++ r.bytes;
        } in
        let s1 = put kernel redis heap fd conn1 s.world s in
        let h1 = put-WellFormed kernel redis heap fd conn1 s.world s p h in
        let buf = conn1.read_buffer in
        elim (Bool-cases (contains (codes "GET /metrics") buf && contains (crlf ++ crlf) buf)) [
          | inl scrape ↦ rw (scrape) (serve_metrics-WellFormed fd conn1 s1 p h1)
          | inr other ↦ elim (Option-cases (upgrade_at kernel redis heap json setup conn1)) [
            | inl plain ↦ rw (other, plain) (lines s1 h1)
            | inr (pos, at) ↦
                let conn2 = record conn1 { read_buffer = drop (pos + 4) buf } in
                let s2 = put kernel redis heap fd conn2 s.world s in
                let h2 = put-WellFormed kernel redis heap fd conn2 s.world s p h in
                let request = take (pos + 4) buf in
                let (done, s3) =
                  try_websocket_upgrade kernel redis heap setup.sha1 fd conn2 request s2 in
                let h3 =
                  try_websocket_upgrade-WellFormed kernel redis heap setup.sha1 fd conn2 request s2
                    p h2 in
                elim (Bool-cases done) [
                  | inl ok ↦ rw (other, at, ok) (upgraded-Holds rs end fd s3 h3)
                  | inr bad ↦ rw (other, at, bad) (lines s3 h3)
                ]
          ]
        ])

  handle_read-Holds :
      (rs : List Received) (end : ReadEnd) (fd : ℕ) (s : Gateway kernel redis heap)
      → Q s
      → Holds Q (handle_read kernel redis heap json setup rs end fd s)
  unfolding handle_read
  handle_read-Holds rs end fd s h = elim (Option-cases (find ℕ_discrete fd s.connections)) [
    | inl e ↦ rw (e, handle_read) h
    | inr (conn, e) ↦ elim (Protocol-cases conn.protocol) [
      | inl p ↦
          rw (e, handle_read, p) (handle_ws_read-Holds kernel redis heap json setup rs end fd s h)
      | inr (inl p) ↦ rw (e, handle_read, p) (handle_tcp_read-Holds rs end fd s h)
      | inr (inr p) ↦ rw (e, handle_read, p) (handle_tcp_read-Holds rs end fd s h)
    ]
  ]

  handle_event-Holds :
      (e : Event) (s : Gateway kernel redis heap)
      → Q s
      → Holds Q (handle_event kernel redis heap json setup e s)
  unfolding handle_event read_ready write_ready
  handle_event-Holds (incoming accepted unblocked now clock) s h =
      handle_accept-WellFormed kernel redis heap accepted unblocked now clock s h
  handle_event-Holds (client_ready fd none writable) s h =
      if_both Q writable _ _ (handle_write-WellFormed kernel redis heap fd s h) h
  handle_event-Holds (client_ready fd (some (rs, end)) writable) s h =
      after-Holds Q _ _ (resume-Holds Q _ (handle_read-Holds rs end fd s h))
        (λ s1 h1. if_both Q writable _ _ (handle_write-WellFormed kernel redis heap fd s1 h1) h1)

  handle_events-Holds :
      (es : List Event) (s : Gateway kernel redis heap)
      → Q s
      → Holds Q (handle_events kernel redis heap json setup es s)
  unfolding handle_events
  handle_events-Holds [] s h = h
  handle_events-Holds (e ∷ es) s h =
      after-Holds Q _ _ (handle_event-Holds e s h) (handle_events-Holds es)

  one_round-Holds :
      (r : Round) (s : Gateway kernel redis heap)
      → Q s
      → Holds Q (one_round kernel redis heap json setup r s)
  unfolding one_round server_round
  one_round-Holds r s h = elim (Option-cases r.events) [
    | inl e ↦ rw (e, one_round) h
    | inr (es, e) ↦
        rw (e, one_round)
          (after-Holds Q _ _ (handle_events-Holds es s h)
            (finish_round-WellFormed kernel redis heap json setup r.fuel r.now r.timeout))
  ]

  loop-Holds :
      (rs : List Round) (s : Gateway kernel redis heap)
      → Q s
      → Holds Q (loop kernel redis heap json setup rs s)
  unfolding loop
  loop-Holds [] s h = h
  loop-Holds (r ∷ rs) s h = after-Holds Q _ _ (one_round-Holds r s h) (loop-Holds rs)

  -- The loop starts without connections. After any number of rounds, with whatever events, each descriptor has one
  -- connection at most, and every connection whose buffer holds bytes is marked as pending. It says nothing of a run that
  -- uses a connection which is gone.
  pub loop-WellFormed :
      (rs : List Round) (s : Gateway kernel redis heap)
      → s.connections ≡ []
      → Holds (WellFormed kernel redis heap) (loop kernel redis heap json setup rs s)
  loop-WellFormed rs s e = loop-Holds rs s (rw e (tt, tt))
