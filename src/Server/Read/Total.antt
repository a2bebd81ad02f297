-- ===== src/Server/Read/Total.antt =====
-- handleRead ends, whatever the bytes are: its fuel is enough.
use distributed_im.Common.{
  ◌+◌, ℕ, refl, ◌⊎◌, ◌≡◌, ◌&&◌, inl, inr, List, [], ◌∷◌, ◌++◌, take, drop, is_empty, if_both,
  Bool-cases, Option-cases,
}
use distributed_im.Common.Assoc.{find, ℕ_discrete}
use distributed_im.Common.Text.{codes, contains}
use distributed_im.Json.{JsonLibrary}
use distributed_im.Priority.{HeapLibrary}
use distributed_im.Redis.{RedisServer}
use distributed_im.Server.{Protocol, tcp, websocket, unknown, Kernel}
use distributed_im.Server.Send.{Gateway, put}
use distributed_im.Server.Handlers.{try_websocket_upgrade}
use distributed_im.Server.Read.{Received, ReadEnd, Setup}
use distributed_im.Server.Read.Lines.{
  Ends, goes_on-Ends, returns-Ends, after-Ends, with_conn-Ends, handle_lines-Ends,
}
use distributed_im.Server.Read.Ends.{handle_ws_read-Ends}
use distributed_im.Server.Read.Loop.{crlf, upgrade_at, upgraded, handle_tcp_read, handle_read}

pub Protocol-cases : (p : Protocol) → (p ≡ websocket) ⊎ ((p ≡ tcp) ⊎ (p ≡ unknown))
Protocol-cases websocket = inl refl
Protocol-cases tcp = inr (inl refl)
Protocol-cases unknown = inr (inr refl)

module _ (kernel : Kernel) (redis : RedisServer) (heap : HeapLibrary) (json : JsonLibrary)
    (setup : Setup) where
  upgraded-Ends :
      (rs : List Received) (end : ReadEnd) (fd : ℕ) (s : Gateway kernel redis heap)
      → Ends (upgraded kernel redis heap json setup rs end fd s)
  unfolding upgraded
  upgraded-Ends rs end fd s = with_conn-Ends kernel redis heap json setup fd _ s (λ conn e.
      if_both Ends (is_empty conn.read_buffer) _ _ (returns-Ends s)
        (handle_ws_read-Ends kernel redis heap json setup rs end fd _))

  handle_tcp_read-Ends :
      (rs : List Received) (end : ReadEnd) (fd : ℕ) (s : Gateway kernel redis heap)
      → Ends (handle_tcp_read kernel redis heap json setup rs end fd s)
  unfolding handle_tcp_read
  handle_tcp_read-Ends [] end fd s = goes_on-Ends _
  handle_tcp_read-Ends (r ∷ rs) end fd s =
      let lines : (s1 : Gateway kernel redis heap) → Ends _ = λ s1.
        after-Ends (handle_tcp_read kernel redis heap json setup rs end fd) _
          (handle_lines-Ends kernel redis heap json setup fd r s1)
          (handle_tcp_read-Ends rs end fd) in
      with_conn-Ends kernel redis heap json setup fd _ s (λ conn e.
        let conn1 = record conn {
          last_active = r.now;
          read_buffer = conn.read_buffer ++ r.bytes;
        } in
        let s1 = put kernel redis heap fd conn1 s.world s in
        let buf = conn1.read_buffer in
        elim (Bool-cases (contains (codes "GET /metrics") buf && contains (crlf ++ crlf) buf)) [
          | inl scrape ↦ rw (scrape) (returns-Ends _)
          | inr other ↦ elim (Option-cases (upgrade_at kernel redis heap json setup conn1)) [
            | inl plain ↦ rw (other, plain) (lines s1)
            | inr (pos, at) ↦
                let conn2 = record conn1 { read_buffer = drop (pos + 4) buf } in
                let s2 = put kernel redis heap fd conn2 s.world s in
                let (done, s3) =
                  try_websocket_upgrade kernel redis heap setup.sha1 fd conn2 (take (pos + 4) buf)
                    s2 in
                elim (Bool-cases done) [
                  | inl ok ↦ rw (other, at, ok) (upgraded-Ends rs end fd s3)
                  | inr bad ↦ rw (other, at, bad) (lines s3)
                ]
          ]
        ])

  -- handleRead never needs more fuel than it has, whatever was read and however the reading stops: neither a line nor a
  -- frame is handled without taking bytes out of its buffer.
  pub handle_read-Ends :
      (rs : List Received) (end : ReadEnd) (fd : ℕ) (s : Gateway kernel redis heap)
      → Ends (handle_read kernel redis heap json setup rs end fd s)
  unfolding handle_read
  handle_read-Ends rs end fd s = elim (Option-cases (find ℕ_discrete fd s.connections)) [
    | inl e ↦ rw (e, handle_read) (returns-Ends s)
    | inr (conn, e) ↦ elim (Protocol-cases conn.protocol) [
      | inl p ↦
          rw (e, handle_read, p) (handle_ws_read-Ends kernel redis heap json setup rs end fd s)
      | inr (inl p) ↦ rw (e, handle_read, p) (handle_tcp_read-Ends rs end fd s)
      | inr (inr p) ↦ rw (e, handle_read, p) (handle_tcp_read-Ends rs end fd s)
    ]
  ]
