-- ===== src/Server/WellFormed/Frames.antt =====
-- Reading frames keeps the invariant of the connections.
use distributed_im.Common.{
  ℕ, zero, suc, ◌&&◌, refl, inl, inr, true, false, List, [], ◌∷◌, ◌++◌, Bytes, length, ltb, ◌==◌,
  if_both, if_split, if◌then◌else◌, Bool-cases,
}
use distributed_im.Json.{JsonLibrary}
use distributed_im.Codec.{WsFrame, message_too_big, normal, ping, pong, close, opcode_value}
use distributed_im.Codec.Encode.{encode_pong, encode_close}
use distributed_im.Codec.Reassembly.{needs_reassembly, append_to_reassembly, finalize_reassembly}
use distributed_im.Priority.{HeapLibrary}
use distributed_im.Redis.{RedisServer}
use distributed_im.Server.{WsState, Connection, Kernel}
use distributed_im.Server.Send.{Gateway, put, send_to_client, disconnect_client}
use distributed_im.Server.Control.{answer_ping, answer_close, handle_ws_control_frame}
use distributed_im.Server.Delivery.{IsPending}
use distributed_im.Server.Read.{Received, ReadEnd, Setup}
use distributed_im.Server.Read.Frames.{
  is_in_payload, data_frame, no_frame, one_frame, parse_next, frame_loop, ws_chunk, handle_ws_read,
}
use distributed_im.Server.WellFormed.{
  WellFormed, put-WellFormed, disconnect_client-WellFormed, send_to_client-WellFormed,
}
use distributed_im.Server.WellFormed.Reading.{
  Holds, after-Holds, with_conn-Holds, put_here-WellFormed, message-WellFormed,
  read_ends-WellFormed,
}

module _ (kernel : Kernel) (redis : RedisServer) (heap : HeapLibrary) (json : JsonLibrary)
    (setup : Setup) where
  open kernel use {watch_both}

  abbrev Q : Gateway kernel redis heap → Type 0
  Q = WellFormed kernel redis heap

  answer_ping-WellFormed :
      (now fd : ℕ) (conn : Connection) (payload : Bytes) (s : Gateway kernel redis heap)
      → Q s
      → Q (answer_ping kernel redis heap now fd conn payload s)
  unfolding answer_ping
  answer_ping-WellFormed now fd conn payload s h =
      let answered = record conn {
        last_active = now;
        write_buffer = conn.write_buffer ++ encode_pong payload;
      } in
      if_split Q conn.write_pending _ _
        (λ e. put-WellFormed kernel redis heap fd answered s.world s (λ x. e) h)
        (λ e.
          put-WellFormed kernel redis heap fd (record answered { write_pending = true })
            (watch_both fd s.world).1 s (λ x. refl) h)

  closing-WellFormed :
      (fd : ℕ) (msg : Bytes) (s : Gateway kernel redis heap)
      → Q s
      → Q (disconnect_client kernel redis heap fd (send_to_client kernel redis heap fd msg s))
  closing-WellFormed fd msg s h =
      disconnect_client-WellFormed kernel redis heap fd _
        (send_to_client-WellFormed kernel redis heap fd msg s h)

  control-WellFormed :
      (now fd : ℕ) (conn : Connection) (frame : WsFrame) (s : Gateway kernel redis heap)
      → IsPending conn
      → Q s
      → Q (handle_ws_control_frame kernel redis heap now fd conn frame s)
  unfolding handle_ws_control_frame answer_close
  control-WellFormed now fd conn frame s p h =
      if_both Q (frame.opcode == opcode_value ping) _ _
        (answer_ping-WellFormed now fd conn frame.payload s h)
        (if_both Q (frame.opcode == opcode_value pong) _ _
          (put_here-WellFormed kernel redis heap json setup fd (record conn { last_active = now }) s
            p h)
          (if_both Q (frame.opcode == opcode_value close) _ _
            (closing-WellFormed fd (encode_close normal []) s h) h))

  data_frame-WellFormed :
      (fd : ℕ) (r : Received) (conn : Connection) (frame : WsFrame) (s : Gateway kernel redis heap)
      → IsPending conn
      → Q s
      → Q (data_frame kernel redis heap json setup fd r conn frame s)
  unfolding data_frame
  data_frame-WellFormed fd r conn frame s p h =
      let opcode : ℕ = if conn.ws.in_fragmented then conn.ws.fragment_opcode else frame.opcode in
      let buf = append_to_reassembly conn.ws.reassembly_buf frame in
      let part = record conn.ws {
        in_fragmented = true;
        fragment_opcode = opcode;
        reassembly_buf = buf;
      } in
      let (msg, rest) = finalize_reassembly buf opcode in
      let whole = record conn {
        ws = record part { in_fragmented = false; reassembly_buf = rest };
      } in
      if_both Q (needs_reassembly frame conn.ws.in_fragmented) _ _
        (if_both Q frame.fin _ _
          (message-WellFormed kernel redis heap json setup fd r whole msg _ p
            (put_here-WellFormed kernel redis heap json setup fd whole s p h))
          (put_here-WellFormed kernel redis heap json setup fd (record conn { ws = part }) s p h))
        (message-WellFormed kernel redis heap json setup fd r conn frame.payload s p h)

  no_frame-Holds :
      (fd : ℕ) (ws : WsState) (s : Gateway kernel redis heap)
      → Q s
      → Holds Q (no_frame kernel redis heap json setup fd ws s)
  unfolding no_frame
  no_frame-Holds fd ws s h =
      if_both (Holds Q)
        (is_in_payload ws.parse_state.stage && ltb setup.max_size ws.parse_state.payload_length) _ _
        (closing-WellFormed fd (encode_close message_too_big []) s h) h

  one_frame-WellFormed :
      (fd : ℕ) (r : Received) (conn : Connection) (frame : WsFrame) (s : Gateway kernel redis heap)
      → IsPending conn
      → Q s
      → Q (one_frame kernel redis heap json setup fd r conn frame s)
  unfolding one_frame
  one_frame-WellFormed fd r conn frame s p h =
      if_both Q frame.is_control _ _ (control-WellFormed r.now fd conn frame s p h)
        (data_frame-WellFormed fd r conn frame s p h)

  frame_loop-Holds :
      (fuel fd : ℕ) (r : Received) (s : Gateway kernel redis heap)
      → Q s
      → Holds Q (frame_loop kernel redis heap json setup fuel fd r s)
  unfolding frame_loop
  frame_loop-Holds zero fd r s h = tt
  frame_loop-Holds (suc fuel) fd r s h =
      with_conn-Holds kernel redis heap json setup fd _ s h (λ conn p.
        let q = parse_next kernel redis heap json setup conn.ws in
        let ws = record conn.ws { raw_buffer = q.buffer; parse_state = q.state } in
        let conn1 = record conn { ws = ws } in
        let s1 = put kernel redis heap fd conn1 s.world s in
        let h1 = put_here-WellFormed kernel redis heap json setup fd conn1 s p h in
        elim (Bool-cases q.has_frame) [
          | inl e ↦ rw (e) (
              frame_loop-Holds fuel fd r
                (one_frame kernel redis heap json setup fd r conn1 q.frame s1)
                (one_frame-WellFormed fd r conn1 q.frame s1 p h1))
          | inr e ↦ rw (e) (no_frame-Holds fd ws s1 h1)
        ])

  ws_chunk-Holds :
      (fd : ℕ) (r : Received) (s : Gateway kernel redis heap)
      → Q s
      → Holds Q (ws_chunk kernel redis heap json setup fd r s)
  unfolding ws_chunk
  ws_chunk-Holds fd r s h = with_conn-Holds kernel redis heap json setup fd _ s h (λ conn p.
      let raw = conn.ws.raw_buffer ++ r.bytes in
      let conn1 = record conn { last_active = r.now; ws = record conn.ws { raw_buffer = raw } } in
      frame_loop-Holds (suc (length raw)) fd r (put kernel redis heap fd conn1 s.world s)
        (put_here-WellFormed kernel redis heap json setup fd conn1 s p h))

  pub handle_ws_read-Holds :
      (rs : List Received) (end : ReadEnd) (fd : ℕ) (s : Gateway kernel redis heap)
      → Q s
      → Holds Q (handle_ws_read kernel redis heap json setup rs end fd s)
  unfolding handle_ws_read
  handle_ws_read-Holds [] end fd s h = read_ends-WellFormed kernel redis heap json setup end fd s h
  handle_ws_read-Holds (r ∷ rs) end fd s h =
      after-Holds Q (handle_ws_read kernel redis heap json setup rs end fd) _
        (ws_chunk-Holds fd r s h) (handle_ws_read-Holds rs end fd)
