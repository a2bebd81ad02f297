-- ===== src/Server/Control.antt =====
-- gateway/src/EpollServer.cpp: handleWsControlFrame, and what the loop does behind the events.
use distributed_im.Common.{ℕ, true, [], ◌++◌, Bytes, ◌==◌, if◌then◌else◌}
use distributed_im.Codec.{WsFrame, normal, ping, pong, close, opcode_value}
use distributed_im.Codec.Encode.{encode_pong, encode_close}
use distributed_im.Priority.{HeapLibrary}
use distributed_im.Redis.{RedisServer}
use distributed_im.Server.{Connection, Kernel}
use distributed_im.Server.Send.{Gateway, put, send_to_client, disconnect_client}
use distributed_im.Server.Handlers.{
  check_ack_retries, deliver_queue, push_offline_messages, check_timeouts,
}

module _ (kernel : Kernel) (redis : RedisServer) (heap : HeapLibrary) where
  open kernel use {watch_both}

  -- The pong waits in the buffer until the descriptor is writable.
  unfoldable pub answer_ping :
      ℕ → ℕ → Connection → Bytes → Gateway kernel redis heap → Gateway kernel redis heap
  unfolding encode_pong
  answer_ping now fd conn payload s =
      let answered = record conn {
        last_active = now;
        write_buffer = conn.write_buffer ++ encode_pong payload;
      } in
      if conn.write_pending
      then put kernel redis heap fd answered s.world s
      else put kernel redis heap fd (record answered { write_pending = true })
          (watch_both fd s.world).1 s

  unfoldable pub answer_close : ℕ → Gateway kernel redis heap → Gateway kernel redis heap
  unfolding encode_close send_to_client disconnect_client
  answer_close fd s =
      disconnect_client kernel redis heap fd
        (send_to_client kernel redis heap fd (encode_close normal []) s)

  unfoldable pub handle_ws_control_frame :
      ℕ → ℕ → Connection → WsFrame → Gateway kernel redis heap → Gateway kernel redis heap
  unfolding answer_ping answer_close opcode_value
  handle_ws_control_frame now fd conn frame s =
      if frame.opcode == opcode_value ping
      then answer_ping now fd conn frame.payload s
      else if frame.opcode == opcode_value pong
      then put kernel redis heap fd (record conn { last_active = now }) s.world s
      else if frame.opcode == opcode_value close
      then answer_close fd s
      else s

  -- One round of the loop behind the events: retries, the queue, offline messages, timeouts. `fuel` is that
  -- of the offline messages.
  unfoldable pub finish_round : ℕ → ℕ → ℕ → Gateway kernel redis heap → Gateway kernel redis heap
  unfolding check_ack_retries deliver_queue push_offline_messages check_timeouts
  finish_round fuel now timeout s =
      let s1 = check_ack_retries kernel redis heap now s in
      let s2 = deliver_queue kernel redis heap (heap.size s1.priority_q) s1 in
      let s3 = push_offline_messages kernel redis heap fuel s2 in
      check_timeouts kernel redis heap now timeout s3
