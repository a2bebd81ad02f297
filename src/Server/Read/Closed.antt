-- ===== src/Server/Read/Closed.antt =====
-- What becomes of the loop over the frames when a frame removes the connection.
use distributed_im.Common.{
  ℕ, zero, suc, refl, [], ◌++◌, ◌∙◌, ◌≡◌, ◌<◌, true, none, some, Bytes, length, arith,
}
use distributed_im.Common.Assoc.{find, ℕ_discrete, find-insert_self}
use distributed_im.Json.{JsonLibrary}
use distributed_im.Codec.{WsFrame, fresh_frame, normal, opcode_value, close}
use distributed_im.Codec.Encode.{encode_close}
use distributed_im.Codec.Parse.{Parsed, try_parse_frame}
use distributed_im.Codec.Parse.Consumes.{try_parse_frame-shorter}
use distributed_im.Priority.{HeapLibrary}
use distributed_im.Redis.{RedisServer}
use distributed_im.Server.{WsState, Connection, Kernel}
use distributed_im.Server.Send.{Gateway, put, send_to_client}
use distributed_im.Server.Control.{answer_close, handle_ws_control_frame}
use distributed_im.Server.Delivery.{disconnect_client-find}
use distributed_im.Server.Read.{Received, Outcome, dangling, Setup, with_conn}
use distributed_im.Server.Read.Frames.{parse_next, one_frame, frame_loop, ws_chunk}

module _ (kernel : Kernel) (redis : RedisServer) (heap : HeapLibrary) (json : JsonLibrary)
    (setup : Setup) where
  -- What the parser makes of the bytes at hand and those that are read.
  abbrev pub next_frame : WsState → Bytes → Parsed
  next_frame ws bytes =
      try_parse_frame setup.max_size (ws.raw_buffer ++ bytes) fresh_frame ws.parse_state

  with_conn-none :
      (fd : ℕ) (f : Connection → Outcome (Gateway kernel redis heap))
      (s : Gateway kernel redis heap)
      → find ℕ_discrete fd s.connections ≡ none
      → with_conn kernel redis heap json setup fd f s ≡ dangling
  unfolding with_conn
  with_conn-none fd f s e = rw (e, with_conn) refl

  with_conn-some :
      (fd : ℕ) (f : Connection → Outcome (Gateway kernel redis heap)) (conn : Connection)
      (s : Gateway kernel redis heap)
      → find ℕ_discrete fd s.connections ≡ some conn
      → with_conn kernel redis heap json setup fd f s ≡ f conn
  unfolding with_conn
  with_conn-some fd f conn s e = rw (e, with_conn) refl

  frame_loop-gone :
      (fuel fd : ℕ) (r : Received) (s : Gateway kernel redis heap)
      → 0 < fuel
      → find ℕ_discrete fd s.connections ≡ none
      → frame_loop kernel redis heap json setup fuel fd r s ≡ dangling
  unfolding frame_loop
  frame_loop-gone zero fd r s h e = absurd (omega arith)
  frame_loop-gone (suc fuel) fd r s h e = with_conn-none fd _ s e

  one_frame-close :
      (fd : ℕ) (r : Received) (conn : Connection) (frame : WsFrame) (s : Gateway kernel redis heap)
      → frame.is_control ≡ true
      → frame.opcode ≡ opcode_value close
      → find ℕ_discrete fd (one_frame kernel redis heap json setup fd r conn frame s).connections
        ≡ none
  unfolding one_frame handle_ws_control_frame answer_close opcode_value
  one_frame-close fd r conn frame s control code =
      let s1 = send_to_client kernel redis heap fd (encode_close normal []) s in
      rw (control, code) (disconnect_client-find kernel redis heap fd s1)

  frame_loop-close :
      (fuel fd : ℕ) (r : Received) (conn : Connection) (s : Gateway kernel redis heap)
      → 0 < fuel
      → find ℕ_discrete fd s.connections ≡ some conn
      → (parse_next kernel redis heap json setup conn.ws).has_frame ≡ true
      → (parse_next kernel redis heap json setup conn.ws).frame.is_control ≡ true
      → (parse_next kernel redis heap json setup conn.ws).frame.opcode ≡ opcode_value close
      → frame_loop kernel redis heap json setup (suc fuel) fd r s ≡ dangling
  unfolding frame_loop
  frame_loop-close fuel fd r conn s h e whole control code =
      let p = parse_next kernel redis heap json setup conn.ws in
      let conn1 = record conn {
        ws = record conn.ws { raw_buffer = p.buffer; parse_state = p.state };
      } in
      let s1 = put kernel redis heap fd conn1 s.world s in
      with_conn-some fd _ conn s e
      ∙ (rw (whole) (
          frame_loop-gone fuel fd r (one_frame kernel redis heap json setup fd r conn1 p.frame s1) h
            (one_frame-close fd r conn1 p.frame s1 control code)))

  -- The bug of the close frame: when the bytes that are read complete a close frame, the loop over the frames goes on
  -- with the connection that the frame has removed.
  pub ws_chunk-close :
      (fd : ℕ) (r : Received) (conn : Connection) (s : Gateway kernel redis heap)
      → find ℕ_discrete fd s.connections ≡ some conn
      → (next_frame conn.ws r.bytes).has_frame ≡ true
      → (next_frame conn.ws r.bytes).frame.is_control ≡ true
      → (next_frame conn.ws r.bytes).frame.opcode ≡ opcode_value close
      → ws_chunk kernel redis heap json setup fd r s ≡ dangling
  unfolding ws_chunk
  ws_chunk-close fd r conn s e whole control code =
      let raw = conn.ws.raw_buffer ++ r.bytes in
      let conn1 = record conn { last_active = r.now; ws = record conn.ws { raw_buffer = raw } } in
      let less = try_parse_frame-shorter setup.max_size raw fresh_frame conn.ws.parse_state whole in
      with_conn-some fd _ conn s e
      ∙ frame_loop-close (length raw) fd r conn1 (put kernel redis heap fd conn1 s.world s)
          (omega (arith, less)) (find-insert_self ℕ_discrete fd conn1 s.connections) whole control
          code
