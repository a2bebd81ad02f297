-- ===== src/Server/Read/Ends.antt =====
-- Reading ends, whatever the bytes are.
use distributed_im.Common.{
  ℕ, zero, suc, ◌<◌, ◌≡◌, ◌∙◌, refl, ap, inl, inr, true, false, List, [], ◌∷◌, ◌++◌, some, Bytes,
  length, ltb, ◌==◌, ◌&&◌, if_both, arith, Bool-cases, if◌then◌else◌,
}
use distributed_im.Common.Assoc.{find, ℕ_discrete}
use distributed_im.Json.{JsonLibrary}
use distributed_im.Server.Delivery.{disconnect_client-find}
use distributed_im.Codec.Encode.{encode_pong, encode_close}
use distributed_im.Codec.{normal, WsFrame, fresh_frame, opcode_value, ping, pong, close}
use distributed_im.Codec.Parse.{try_parse_frame}
use distributed_im.Codec.Parse.Consumes.{try_parse_frame-shorter}
use distributed_im.Codec.Reassembly.{append_to_reassembly, finalize_reassembly, needs_reassembly}
use distributed_im.Priority.{HeapLibrary}
use distributed_im.Redis.{RedisServer}
use distributed_im.Server.{WsState, Connection, Kernel}
use distributed_im.Server.Send.{Gateway, put, send_to_client}
use distributed_im.Server.Control.{answer_ping, answer_close, handle_ws_control_frame}
use distributed_im.Server.Isolation.{KeepsInput, put-Isolated}
use distributed_im.Server.Read.{Received, ReadEnd, Setup, message}
use distributed_im.Server.Read.Lines.{
  Ends, goes_on-Ends, returns-Ends, after-Ends, with_conn-Ends, message-KeepsInput, put-KeepsInput,
}
use distributed_im.Server.Read.Frames.{
  is_in_payload, data_frame, no_frame, one_frame, frame_loop, ws_chunk, handle_ws_read,
}

module _ (kernel : Kernel) (redis : RedisServer) (heap : HeapLibrary) (json : JsonLibrary)
    (setup : Setup) where
  open kernel use {World, watch_both}

  -- The raw bytes of the connection of `fd`, if it is there, are those of `conn`.
  abbrev pub KeepsRaw : ℕ → Connection → Gateway kernel redis heap → Type 0
  KeepsRaw fd conn s =
      (c : Connection)
      → find ℕ_discrete fd s.connections ≡ some c
      → c.ws.raw_buffer ≡ conn.ws.raw_buffer

  from_input :
      (fd : ℕ) (conn conn' : Connection) (s : Gateway kernel redis heap)
      → conn'.ws.raw_buffer ≡ conn.ws.raw_buffer
      → KeepsInput kernel redis heap fd conn' s
      → KeepsRaw fd conn s
  from_input fd conn conn' s same h c e = ap (λ ws. ws.raw_buffer) (h c e).1 ∙ same

  put-KeepsRaw :
      (fd : ℕ) (conn conn' : Connection) (w : World) (s : Gateway kernel redis heap)
      → conn'.ws.raw_buffer ≡ conn.ws.raw_buffer
      → KeepsRaw fd conn (put kernel redis heap fd conn' w s)
  put-KeepsRaw fd conn conn' w s same =
      from_input fd conn conn' (put kernel redis heap fd conn' w s) same
        (put-Isolated kernel redis heap fd conn' conn' w s s (λ j n. refl) refl refl).1

  answer_ping-KeepsRaw :
      (now fd : ℕ) (conn : Connection) (payload : Bytes) (s : Gateway kernel redis heap)
      → KeepsRaw fd conn (answer_ping kernel redis heap now fd conn payload s)
  unfolding answer_ping
  answer_ping-KeepsRaw now fd conn payload s =
      let answered = record conn {
        last_active = now;
        write_buffer = conn.write_buffer ++ encode_pong payload;
      } in
      let waiting = record answered { write_pending = true } in
      if_both (KeepsRaw fd conn) conn.write_pending _ _
        (put-KeepsRaw fd conn answered s.world s refl)
        (put-KeepsRaw fd conn waiting (watch_both fd s.world).1 s refl)

  answer_close-KeepsRaw :
      (fd : ℕ) (conn : Connection) (s : Gateway kernel redis heap)
      → KeepsRaw fd conn (answer_close kernel redis heap fd s)
  unfolding answer_close
  answer_close-KeepsRaw fd conn s c e =
      let s1 = send_to_client kernel redis heap fd (encode_close normal []) s in
      absurd (cc (e, disconnect_client-find kernel redis heap fd s1))

  control-KeepsRaw :
      (now fd : ℕ) (conn : Connection) (frame : WsFrame) (s : Gateway kernel redis heap)
      → KeepsRaw fd conn s
      → KeepsRaw fd conn (handle_ws_control_frame kernel redis heap now fd conn frame s)
  unfolding handle_ws_control_frame
  control-KeepsRaw now fd conn frame s here =
      let Q = KeepsRaw fd conn in
      let alive = record conn { last_active = now } in
      if_both Q (frame.opcode == opcode_value ping) _ _
        (answer_ping-KeepsRaw now fd conn frame.payload s)
        (if_both Q (frame.opcode == opcode_value pong) _ _
          (put-KeepsRaw fd conn alive s.world s refl)
          (if_both Q (frame.opcode == opcode_value close) _ _ (answer_close-KeepsRaw fd conn s)
            here))

  message-KeepsRaw :
      (fd : ℕ) (r : Received) (conn conn' : Connection) (msg : Bytes)
      (s : Gateway kernel redis heap)
      → conn'.ws.raw_buffer ≡ conn.ws.raw_buffer
      → KeepsInput kernel redis heap fd conn' s
      → KeepsRaw fd conn (message kernel redis heap json setup fd r conn' msg s)
  message-KeepsRaw fd r conn conn' msg s same here =
      from_input fd conn conn' (message kernel redis heap json setup fd r conn' msg s) same
        (message-KeepsInput kernel redis heap json setup fd r conn' msg s here)

  data-KeepsRaw :
      (fd : ℕ) (r : Received) (conn : Connection) (frame : WsFrame) (s : Gateway kernel redis heap)
      → KeepsInput kernel redis heap fd conn s
      → KeepsRaw fd conn (data_frame kernel redis heap json setup fd r conn frame s)
  unfolding data_frame
  data-KeepsRaw fd r conn frame s here =
      let Q = KeepsRaw fd conn in
      let ws = conn.ws in
      let opcode : ℕ = if ws.in_fragmented then ws.fragment_opcode else frame.opcode in
      let buf = append_to_reassembly ws.reassembly_buf frame in
      let part = record ws {
        in_fragmented = true;
        fragment_opcode = opcode;
        reassembly_buf = buf;
      } in
      let (msg, rest) = finalize_reassembly buf opcode in
      let whole = record conn {
        ws = record part { in_fragmented = false; reassembly_buf = rest };
      } in
      if_both Q (needs_reassembly frame ws.in_fragmented) _ _
        (if_both Q frame.fin _ _
          (message-KeepsRaw fd r conn whole msg (put kernel redis heap fd whole s.world s) refl
            (put-KeepsInput kernel redis heap json setup fd whole s))
          (put-KeepsRaw fd conn (record conn { ws = part }) s.world s refl))
        (message-KeepsRaw fd r conn conn frame.payload s refl here)

  one_frame-KeepsRaw :
      (fd : ℕ) (r : Received) (conn : Connection) (frame : WsFrame) (s : Gateway kernel redis heap)
      → KeepsRaw fd conn (
          one_frame kernel redis heap json setup fd r conn frame
            (put kernel redis heap fd conn s.world s))
  unfolding one_frame
  one_frame-KeepsRaw fd r conn frame s =
      let s1 = put kernel redis heap fd conn s.world s in
      if_both (KeepsRaw fd conn) frame.is_control _ _
        (control-KeepsRaw r.now fd conn frame s1 (put-KeepsRaw fd conn conn s.world s refl))
        (data-KeepsRaw fd r conn frame s1 (put-KeepsInput kernel redis heap json setup fd conn s))

  abbrev Shorter : ℕ → ℕ → Gateway kernel redis heap → Type 0
  Shorter fuel fd s =
      (conn : Connection)
      → find ℕ_discrete fd s.connections ≡ some conn
      → length conn.ws.raw_buffer < fuel

  no_frame-Ends :
      (fd : ℕ) (ws : WsState) (s : Gateway kernel redis heap)
      → Ends (no_frame kernel redis heap json setup fd ws s)
  unfolding no_frame
  no_frame-Ends fd ws s =
      if_both Ends
        (is_in_payload ws.parse_state.stage && ltb setup.max_size ws.parse_state.payload_length) _ _
        (returns-Ends _) (goes_on-Ends _)

  frame_loop-Ends :
      (fuel fd : ℕ) (r : Received) (s : Gateway kernel redis heap)
      → 0 < fuel
      → Shorter fuel fd s
      → Ends (frame_loop kernel redis heap json setup fuel fd r s)
  unfolding frame_loop
  frame_loop-Ends zero fd r s h k = absurd (omega arith)
  frame_loop-Ends (suc fuel) fd r s h k =
      with_conn-Ends kernel redis heap json setup fd _ s (λ conn e.
        let raw = conn.ws.raw_buffer in
        let p = try_parse_frame setup.max_size raw fresh_frame conn.ws.parse_state in
        let ws = record conn.ws { raw_buffer = p.buffer; parse_state = p.state } in
        let conn1 = record conn { ws = ws } in
        let s1 = put kernel redis heap fd conn1 s.world s in
        elim (Bool-cases p.has_frame) [
          | inl f ↦
              let less =
                try_parse_frame-shorter setup.max_size raw fresh_frame conn.ws.parse_state f in
              rw (f) (
                frame_loop-Ends fuel fd r
                  (one_frame kernel redis heap json setup fd r conn1 p.frame s1)
                  (omega (arith, k conn e, less))
                  (λ c g. omega (
                    arith,
                    k conn e,
                    less,
                    ap length (one_frame-KeepsRaw fd r conn1 p.frame s c g),
                  )))
          | inr f ↦ rw (f) (no_frame-Ends fd ws s1)
        ])

  ws_chunk-Ends :
      (fd : ℕ) (r : Received) (s : Gateway kernel redis heap)
      → Ends (ws_chunk kernel redis heap json setup fd r s)
  unfolding ws_chunk
  ws_chunk-Ends fd r s = with_conn-Ends kernel redis heap json setup fd _ s (λ conn e.
      let raw = conn.ws.raw_buffer ++ r.bytes in
      let conn1 = record conn { last_active = r.now; ws = record conn.ws { raw_buffer = raw } } in
      frame_loop-Ends (suc (length raw)) fd r (put kernel redis heap fd conn1 s.world s)
        (omega arith)
        (λ c f. omega (arith, ap length (put-KeepsRaw fd conn1 conn1 s.world s refl c f))))

  pub handle_ws_read-Ends :
      (rs : List Received) (end : ReadEnd) (fd : ℕ) (s : Gateway kernel redis heap)
      → Ends (handle_ws_read kernel redis heap json setup rs end fd s)
  unfolding handle_ws_read
  handle_ws_read-Ends [] end fd s = goes_on-Ends _
  handle_ws_read-Ends (r ∷ rs) end fd s =
      after-Ends _ _ (ws_chunk-Ends fd r s) (handle_ws_read-Ends rs end fd)
