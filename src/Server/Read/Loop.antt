-- ===== src/Server/Read/Loop.antt =====
-- gateway/src/EpollServer.cpp: handleTcpRead, handleRead and buildHttpMetricsResponse.
use distributed_im.Common.{
  ℕ, ◌+◌, Bool, true, false, ◌&&◌, List, [], ◌∷◌, ◌++◌, Option, none, some, Bytes, length, take,
  drop, is_empty, if◌then◌else◌,
}
use distributed_im.Common.Assoc.{find, ℕ_discrete}
use distributed_im.Common.Decimal.{to_decimal}
use distributed_im.Common.Text.{codes, contains, find_text}
use distributed_im.Json.{JsonLibrary}
use distributed_im.Priority.{HeapLibrary}
use distributed_im.Redis.{RedisServer}
use distributed_im.Server.{Protocol, tcp, websocket, unknown, Connection, Kernel}
use distributed_im.Server.Send.{Gateway, write_all, put, disconnect_client}
use distributed_im.Server.Handlers.{try_websocket_upgrade}
use distributed_im.Server.Read.{
  Received, ReadEnd, Outcome, goes_on, returns, after, Setup, with_conn, read_ends, handle_lines,
}
use distributed_im.Server.Read.Frames.{handle_ws_read}

abbrev pub crlf : Bytes
crlf = 13 ∷ 10 ∷ []

unfoldable pub build_http_metrics_response : Bytes → Bytes
unfolding to_decimal
build_http_metrics_response metrics =
    codes "HTTP/1.1 200 OK"
    ++ (crlf
        ++ (codes "Content-Type: text/plain; charset=utf-8"
            ++ (crlf
                ++ (codes "Content-Length: "
                    ++ (to_decimal (length metrics)
                        ++ (crlf ++ (codes "Connection: close" ++ (crlf ++ (crlf ++ metrics)))))))))

-- `conn.protocol == Protocol::UNKNOWN`.
abbrev is_unknown : Protocol → Bool
is_unknown unknown = true
is_unknown tcp = false
is_unknown websocket = false

module _ (kernel : Kernel) (redis : RedisServer) (heap : HeapLibrary) (json : JsonLibrary)
    (setup : Setup) where
  -- What follows a successful upgrade: the rest of the buffer is kept for the parser of frames, which runs on the next
  -- bytes that are read.
  unfoldable pub upgraded :
      List Received → ReadEnd → ℕ → Gateway kernel redis heap → Outcome (Gateway kernel redis heap)
  unfolding with_conn handle_ws_read
  upgraded rs end fd s =
      with_conn kernel redis heap json setup fd
        (λ conn.
          let ws = record conn.ws { raw_buffer = conn.ws.raw_buffer ++ conn.read_buffer } in
          let conn1 = record conn { read_buffer = []; ws = ws } in
          if is_empty conn.read_buffer
          then returns s
          else handle_ws_read kernel redis heap json setup rs end fd
              (put kernel redis heap fd conn1 s.world s))
        s

  -- The answer to a scrape: written as far as the kernel takes it, and the connection is closed.
  unfoldable pub serve_metrics :
      ℕ → Connection → Gateway kernel redis heap → Gateway kernel redis heap
  unfolding write_all build_http_metrics_response disconnect_client
  serve_metrics fd conn s =
      let response = build_http_metrics_response setup.metrics in
      let w = (write_all kernel fd response s.world).1 in
      disconnect_client kernel redis heap fd
        (put kernel redis heap fd (record conn { read_buffer = [] }) w s)

  -- The end of the HTTP header in a connection that asks for an upgrade.
  unfoldable pub upgrade_at : Connection → Option ℕ
  unfolding contains find_text
  upgrade_at conn =
      if is_unknown conn.protocol && contains (codes "Upgrade: websocket") conn.read_buffer
      then find_text (crlf ++ crlf) conn.read_buffer
      else none

  unfoldable pub handle_tcp_read :
      List Received → ReadEnd → ℕ → Gateway kernel redis heap → Outcome (Gateway kernel redis heap)
  unfolding read_ends with_conn serve_metrics upgrade_at try_websocket_upgrade upgraded after
      handle_lines contains
  handle_tcp_read [] end fd s = goes_on (read_ends kernel redis heap json setup end fd s)
  handle_tcp_read (r ∷ rs) end fd s =
      with_conn kernel redis heap json setup fd
        (λ conn.
          let conn1 = record conn {
            last_active = r.now;
            read_buffer = conn.read_buffer ++ r.bytes;
          } in
          let s1 = put kernel redis heap fd conn1 s.world s in
          let buf = conn1.read_buffer in
          elim (contains (codes "GET /metrics") buf && contains (crlf ++ crlf) buf) [
            | true ↦ returns (serve_metrics fd conn1 s1)
            | false ↦ elim (upgrade_at conn1) [
              | none ↦
                  after (handle_tcp_read rs end fd)
                    (handle_lines kernel redis heap json setup fd r s1)
              | some pos ↦
                  let conn2 = record conn1 { read_buffer = drop (pos + 4) buf } in
                  let s2 = put kernel redis heap fd conn2 s.world s in
                  let (done, s3) =
                    try_websocket_upgrade kernel redis heap setup.sha1 fd conn2 (take (pos + 4) buf)
                      s2 in
                  elim done [
                    | true ↦ upgraded rs end fd s3
                    | false ↦
                        after (handle_tcp_read rs end fd)
                          (handle_lines kernel redis heap json setup fd r s3)
                  ]
            ]
          ])
        s

  unfoldable pub handle_read :
      List Received → ReadEnd → ℕ → Gateway kernel redis heap → Outcome (Gateway kernel redis heap)
  unfolding handle_ws_read handle_tcp_read
  handle_read rs end fd s = elim (find ℕ_discrete fd s.connections) [
    | none ↦ returns s
    | some conn ↦ elim conn.protocol [
      | websocket ↦ handle_ws_read kernel redis heap json setup rs end fd s
      | tcp ↦ handle_tcp_read rs end fd s
      | unknown ↦ handle_tcp_read rs end fd s
    ]
  ]
