-- ===== src/Server/Closing.antt =====
-- What a client over WebSocket gets for its close frame.
use mathlib.Core.Path.{subst}
use distributed_im.Common.{
  ℕ, ◌<◌, ◌^◌, ◌≡◌, refl, ap, ◌∙◌, inl, inr, true, [], arith, ◌++◌, some, Bytes, length, is_empty,
  if_both, Option-cases, if◌then◌else◌,
}
use distributed_im.Common.Assoc.{find, bytes_discrete, ℕ_discrete}
use distributed_im.Codec.{normal, close_value, opcode_value}
use distributed_im.Codec.Encode.{
  encode_close, encode_frame, append_frame_header, length_field, key_field, close_payload,
}
use distributed_im.Codec.Decoding.{decode_frame, decode_frame-encode}
use distributed_im.Priority.{HeapLibrary}
use distributed_im.Redis.{RedisServer}
use distributed_im.Server.{websocket, Connection, Kernel}
use distributed_im.Server.Written.{Flushed, write_all_lem}
use distributed_im.Server.Send.{
  all_written, write_all, pack, Gateway, log_out, disconnect_client, after_send, send_on,
  send_to_client,
}
use distributed_im.Server.Control.{answer_close}

close_fits : length (encode_close normal []) < 2 ^ 64
unfolding encode_close encode_frame append_frame_header length_field key_field close_payload
    close_value opcode_value
close_fits = omega arith

module _ (kernel : Kernel) (redis : RedisServer) (heap : HeapLibrary) where
  open kernel use {World, written, unwatch}

  log_out-world :
      (username : Bytes) (fd : ℕ) (s : Gateway kernel redis heap)
      → (log_out kernel redis heap username fd s).world ≡ s.world
  unfolding log_out
  log_out-world username fd s = elim (Option-cases (find bytes_discrete username s.user_map)) [
    | inl e ↦ rw (e, log_out) refl
    | inr (fds, e) ↦ rw (e, log_out) refl
  ]

  disconnect_client-written :
      (fd : ℕ) (s : Gateway kernel redis heap)
      → written fd (disconnect_client kernel redis heap fd s).world ≡ written fd s.world
  unfolding disconnect_client
  disconnect_client-written fd s = elim (Option-cases (find ℕ_discrete fd s.connections)) [
    | inl e ↦ rw (e, disconnect_client) refl
    | inr (conn, e) ↦
        let out = log_out kernel redis heap conn.username fd s in
        let s1 = if is_empty conn.username then s else out in
        let same : s1.world ≡ s.world =
          if_both (λ (t : Gateway kernel redis heap). t.world ≡ s.world) (is_empty conn.username) s
            out refl (log_out-world conn.username fd s) in
        rw (e, disconnect_client)
          (kernel.close-written fd (unwatch fd s1.world)
            ∙ kernel.unwatch-written fd s1.world
            ∙ ap (written fd) same)
  ]

  -- With nothing waiting, and when the kernel takes all bytes, a message is sent whole.
  send_to_client-written :
      (fd : ℕ) (msg : Bytes) (s : Gateway kernel redis heap) (conn : Connection) (w : World)
      → find ℕ_discrete fd s.connections ≡ some conn
      → conn.write_buffer ≡ []
      → write_all kernel fd (pack conn msg) s.world ≡ (all_written, w)
      → written fd (send_to_client kernel redis heap fd msg s).world
        ≡ written fd s.world ++ pack conn msg
  unfolding send_to_client send_on after_send
  send_to_client-written fd msg s conn w e empty taken =
      let blank : is_empty conn.write_buffer ≡ true = ap is_empty empty in
      let flushed : Flushed kernel fd s.world (pack conn msg) (all_written, w) =
        subst (Flushed kernel fd s.world (pack conn msg)) taken
          (write_all_lem kernel fd (pack conn msg) s.world) in
      rw (e, send_to_client, blank, taken) flushed

  -- The bug of the close frame: over WebSocket, with nothing waiting for the client and a kernel that takes all bytes, the
  -- answer to a close frame, sent before the connection is closed, is one final text frame, whose payload is a close frame.
  pub answer_close_lem :
      (fd : ℕ) (s : Gateway kernel redis heap) (conn : Connection) (w : World) (rest : Bytes)
      → find ℕ_discrete fd s.connections ≡ some conn
      → conn.protocol ≡ websocket
      → conn.write_buffer ≡ []
      → write_all kernel fd (pack conn (encode_close normal [])) s.world ≡ (all_written, w)
      → (bytes : Bytes) × (written fd (answer_close kernel redis heap fd s).world
          ≡ written fd s.world ++ bytes)
        × (decode_frame (bytes ++ rest)
            ≡ some
                (record { fin = true; opcode = 1; payload = encode_close normal []; rest = rest }))
  unfolding answer_close pack
  answer_close_lem fd s conn w rest e over empty taken =
      let msg = encode_close normal [] in
      (
        pack conn msg,
        disconnect_client-written fd (send_to_client kernel redis heap fd msg s)
            ∙ send_to_client-written fd msg s conn w e empty taken,
        rw (over, pack) (decode_frame-encode msg rest close_fits).0,
      )
