-- ===== src/Server/Read.antt =====
-- gateway/src/EpollServer.cpp: what handleTcpRead and handleWsRead share, and the loop over the lines. What `read` gives in
-- one event is a list of chunks and the reason why it stops. `conn` is a reference into the map of the connections: every
-- use looks the descriptor up, and a use behind its removal is `dangling`. The loops run on fuel.
pub mod Frames
pub mod Lines
pub mod Closed
pub mod Framing
pub mod Total
pub mod Ends
pub mod Loop
use distributed_im.Common.{
  ℕ, zero, suc, ◌+◌, Bool, true, false, ◌&&◌, List, [], ◌∷◌, ◌++◌, Option, none, some, Bytes,
  length, take, drop, is_empty, ltb, if◌then◌else◌,
}
use distributed_im.Common.Assoc.{find, ℕ_discrete}
use distributed_im.Common.Decimal.{to_decimal}
use distributed_im.Common.Text.{codes, contains, find_text}
use distributed_im.Json.{JsonLibrary}
use distributed_im.Codec.{WsFrame, fresh_frame, message_too_big}
use distributed_im.Codec.Encode.{encode_close}
use distributed_im.Codec.Parse.{WsParseStage, Parsed, in_payload, try_parse_frame}
use distributed_im.Codec.Reassembly.{needs_reassembly, append_to_reassembly, finalize_reassembly}
use distributed_im.Priority.{HeapLibrary}
use distributed_im.Redis.{RedisServer}
use distributed_im.Server.{Protocol, tcp, websocket, unknown, WsState, Connection, Kernel}
use distributed_im.Server.Send.{Gateway, write_all, put, send_to_client, disconnect_client}
use distributed_im.Server.Handlers.{try_websocket_upgrade}
use distributed_im.Server.Control.{handle_ws_control_frame}
use distributed_im.Server.Dispatch.{handle_message}

-- Bytes that `read` gave, with the time in seconds and the steady clock in microseconds.
pub record Received : Type 0 where
  pub bytes : Bytes
  pub now : ℕ
  pub clock : ℕ

-- What `read` gives last: EAGAIN, 0, or another error.
pub data ReadEnd : Type 0 where
  no_more closed failed : ReadEnd

-- How a loop ends: by `break`, by `return`, with a use of a connection that is gone, or without fuel.
pub data Outcome (S : Type 0) : Type 0 where
  goes_on returns : S → Outcome S
  dangling starved : Outcome S

module _ {S : Type 0} where
  unfoldable pub after : (S → Outcome S) → Outcome S → Outcome S
  after next (goes_on s) = next s
  after next (returns s) = returns s
  after next dangling = dangling
  after next starved = starved

-- The parameters are those of the configuration and of the libraries; `max_size` is `max_payload_size_`, and `metrics`
-- the text of the metrics.
pub record Setup : Type 0 where
  pub rate_limit_enabled : Bool
  pub max_size : ℕ
  pub metrics : Bytes
  pub sha1 : Bytes → Bytes
  pub order : List Bytes → List Bytes

module _ (kernel : Kernel) (redis : RedisServer) (heap : HeapLibrary) (json : JsonLibrary)
    (setup : Setup) where
  -- `conn`, as a use of the reference reads it.
  unfoldable pub with_conn :
      ℕ
      → (Connection → Outcome (Gateway kernel redis heap))
      → Gateway kernel redis heap
      → Outcome (Gateway kernel redis heap)
  with_conn fd use_it s = elim (find ℕ_discrete fd s.connections) [
    | none ↦ dangling
    | some conn ↦ use_it conn
  ]

  unfoldable pub message :
      ℕ → Received → Connection → Bytes → Gateway kernel redis heap → Gateway kernel redis heap
  unfolding handle_message
  message fd r conn msg s =
      handle_message kernel redis heap json setup.order setup.rate_limit_enabled r.now r.clock fd
        conn msg s

  -- The line is taken out of the buffer before it is handled.
  unfoldable pub take_line :
      ℕ → Received → ℕ → Connection → Gateway kernel redis heap → Gateway kernel redis heap
  unfolding message
  take_line fd r pos conn s =
      let line = take pos conn.read_buffer in
      let conn1 = record conn { read_buffer = drop (pos + 1) conn.read_buffer } in
      message fd r conn1 line (put kernel redis heap fd conn1 s.world s)

  -- The loop over the lines of the buffer.
  unfoldable pub line_loop :
      ℕ → ℕ → Received → Gateway kernel redis heap → Outcome (Gateway kernel redis heap)
  unfolding with_conn take_line find_text
  line_loop zero fd r s = starved
  line_loop (suc fuel) fd r s =
      with_conn fd
        (λ conn. elim (find_text (10 ∷ []) conn.read_buffer) [
          | none ↦ goes_on s
          | some pos ↦ line_loop fuel fd r (take_line fd r pos conn s)
        ])
        s

  unfoldable pub check_overflow :
      ℕ → Gateway kernel redis heap → Outcome (Gateway kernel redis heap)
  unfolding with_conn disconnect_client
  check_overflow fd s =
      with_conn fd
        (λ conn.
          if ltb 65536 (length conn.read_buffer)
          then returns (disconnect_client kernel redis heap fd s)
          else goes_on s)
        s

  -- Every line takes a byte out of the buffer at least.
  unfoldable pub handle_lines :
      ℕ → Received → Gateway kernel redis heap → Outcome (Gateway kernel redis heap)
  unfolding with_conn line_loop after check_overflow
  handle_lines fd r s =
      with_conn fd
        (λ conn. after (check_overflow fd) (line_loop (suc (length conn.read_buffer)) fd r s)) s

  unfoldable pub read_ends : ReadEnd → ℕ → Gateway kernel redis heap → Gateway kernel redis heap
  unfolding disconnect_client
  read_ends no_more fd s = s
  read_ends closed fd s = disconnect_client kernel redis heap fd s
  read_ends failed fd s = disconnect_client kernel redis heap fd s
