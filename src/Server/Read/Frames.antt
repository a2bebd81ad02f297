-- ===== src/Server/Read/Frames.antt =====
-- gateway/src/EpollServer.cpp: handleWsRead, the loop over the frames of a WebSocket connection.
use distributed_im.Common.{
  ℕ, zero, suc, Bool, true, false, ◌&&◌, List, [], ◌∷◌, ◌++◌, length, ltb, if◌then◌else◌,
}
use distributed_im.Json.{JsonLibrary}
use distributed_im.Codec.{WsFrame, fresh_frame, message_too_big}
use distributed_im.Codec.Encode.{encode_close}
use distributed_im.Codec.Parse.{WsParseStage, Parsed, in_payload, try_parse_frame}
use distributed_im.Codec.Reassembly.{needs_reassembly, append_to_reassembly, finalize_reassembly}
use distributed_im.Priority.{HeapLibrary}
use distributed_im.Redis.{RedisServer}
use distributed_im.Server.{WsState, Connection, Kernel}
use distributed_im.Server.Send.{Gateway, put, send_to_client, disconnect_client}
use distributed_im.Server.Control.{handle_ws_control_frame}
use distributed_im.Server.Read.{
  Received, ReadEnd, Outcome, goes_on, returns, starved, after, Setup, with_conn, message,
  read_ends,
}

abbrev pub is_in_payload : WsParseStage → Bool
is_in_payload in_payload = true
is_in_payload _ = false

module _ (kernel : Kernel) (redis : RedisServer) (heap : HeapLibrary) (json : JsonLibrary)
    (setup : Setup) where
  -- A data frame: a part of a message, or a message.
  unfoldable pub data_frame :
      ℕ → Received → Connection → WsFrame → Gateway kernel redis heap → Gateway kernel redis heap
  unfolding message needs_reassembly append_to_reassembly finalize_reassembly
  data_frame fd r conn frame s =
      let ws = conn.ws in
      let opcode : ℕ = if ws.in_fragmented then ws.fragment_opcode else frame.opcode in
      let buf = append_to_reassembly ws.reassembly_buf frame in
      let part = record ws {
        in_fragmented = true;
        fragment_opcode = opcode;
        reassembly_buf = buf;
      } in
      let (msg, rest) = finalize_reassembly buf opcode in
      let whole = record conn {
        ws = record part { in_fragmented = false; reassembly_buf = rest };
      } in
      if needs_reassembly frame ws.in_fragmented
      then (if frame.fin
          then message kernel redis heap json setup fd r whole msg
              (put kernel redis heap fd whole s.world s)
          else put kernel redis heap fd (record conn { ws = part }) s.world s)
      else message kernel redis heap json setup fd r conn frame.payload s

  -- What follows when there is no whole frame.
  unfoldable pub no_frame :
      ℕ → WsState → Gateway kernel redis heap → Outcome (Gateway kernel redis heap)
  unfolding encode_close send_to_client disconnect_client
  no_frame fd ws s =
      let too_big =
        disconnect_client kernel redis heap fd
          (send_to_client kernel redis heap fd (encode_close message_too_big []) s) in
      if is_in_payload ws.parse_state.stage && ltb setup.max_size ws.parse_state.payload_length
      then returns too_big
      else goes_on s

  -- A whole frame is handled, and the loop goes on.
  unfoldable pub one_frame :
      ℕ → Received → Connection → WsFrame → Gateway kernel redis heap → Gateway kernel redis heap
  unfolding handle_ws_control_frame data_frame
  one_frame fd r conn frame s =
      if frame.is_control
      then handle_ws_control_frame kernel redis heap r.now fd conn frame s
      else data_frame fd r conn frame s

  abbrev pub parse_next : WsState → Parsed
  parse_next ws = try_parse_frame setup.max_size ws.raw_buffer fresh_frame ws.parse_state

  unfoldable pub frame_loop :
      ℕ → ℕ → Received → Gateway kernel redis heap → Outcome (Gateway kernel redis heap)
  unfolding with_conn no_frame one_frame try_parse_frame
  frame_loop zero fd r s = starved
  frame_loop (suc fuel) fd r s =
      with_conn kernel redis heap json setup fd
        (λ conn.
          let p = parse_next conn.ws in
          let ws = record conn.ws { raw_buffer = p.buffer; parse_state = p.state } in
          let conn1 = record conn { ws = ws } in
          let s1 = put kernel redis heap fd conn1 s.world s in
          elim p.has_frame [
            | true ↦ frame_loop fuel fd r (one_frame fd r conn1 p.frame s1)
            | false ↦ no_frame fd ws s1
          ])
        s

  -- Every frame takes a byte out of the buffer at least.
  unfoldable pub ws_chunk :
      ℕ → Received → Gateway kernel redis heap → Outcome (Gateway kernel redis heap)
  unfolding with_conn frame_loop
  ws_chunk fd r s =
      with_conn kernel redis heap json setup fd
        (λ conn.
          let raw = conn.ws.raw_buffer ++ r.bytes in
          let conn1 = record conn {
            last_active = r.now;
            ws = record conn.ws { raw_buffer = raw };
          } in
          frame_loop (suc (length raw)) fd r (put kernel redis heap fd conn1 s.world s))
        s

  unfoldable pub handle_ws_read :
      List Received → ReadEnd → ℕ → Gateway kernel redis heap → Outcome (Gateway kernel redis heap)
  unfolding read_ends after ws_chunk
  handle_ws_read [] end fd s = goes_on (read_ends kernel redis heap json setup end fd s)
  handle_ws_read (r ∷ rs) end fd s = after (handle_ws_read rs end fd) (ws_chunk fd r s)
