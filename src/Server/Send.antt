-- ===== src/Server/Send.antt =====
-- gateway/src/EpollServer.cpp, sending: disconnectClient, sendToClient, sendToUser, handleWrite, broadcast.
use distributed_im.Common.{
  ℕ, zero, suc, true, false, List, [], ◌∷◌, ◌++◌, Option, none, some, Bytes, length, drop, is_empty,
  ◌==◌, if◌then◌else◌,
}
use distributed_im.Common.Assoc.{find, insert, erase, bytes_discrete, ℕ_discrete}
use distributed_im.Codec.Encode.{encode_text}
use distributed_im.Priority.{MessagePriority, HeapLibrary, queue_push}
use distributed_im.Redis.{RedisServer}
use distributed_im.Redis.Users.{user_logout}
use distributed_im.Server.{
  tcp, websocket, unknown, Connection, WriteResult, wrote, would_block, write_failed, Kernel,
  Server,
}

-- `std::remove` and `erase`.
unfoldable pub remove_fd : ℕ → List ℕ → List ℕ
remove_fd fd [] = []
remove_fd fd (x ∷ fds) = let rest = remove_fd fd fds in if x == fd then rest else x ∷ rest

-- The message as it goes out on the connection's protocol.
unfoldable pub pack : Connection → Bytes → Bytes
pack conn msg = elim conn.protocol [ websocket ↦ encode_text msg | tcp ↦ msg | unknown ↦ msg ]

-- How a loop over `write` ends: with everything taken, with some bytes left on EAGAIN, or on an error.
pub data WriteEnd : Type 0 where
  all_written broken out_of_fuel : WriteEnd
  blocked : Bytes → WriteEnd

module _ (kernel : Kernel) where
  open kernel use {World, write}

  -- What the loop does with the result of one `write`.
  unfoldable pub after_write :
      (Bytes → World → WriteEnd × World) → Bytes → WriteResult × World → WriteEnd × World
  after_write later bytes (wrote zero, w) = (broken, w)
  after_write later bytes (wrote (suc n), w) = later (drop (suc n) bytes) w
  after_write later bytes (would_block, w) = (blocked bytes, w)
  after_write later bytes (write_failed, w) = (broken, w)

  -- `while (total < data.size())`, over the bytes still to write, with fuel.
  unfoldable pub write_loop : ℕ → ℕ → Bytes → World → WriteEnd × World
  unfolding after_write
  write_loop fuel fd [] w = (all_written, w)
  write_loop zero fd (b ∷ bytes) w = (out_of_fuel, w)
  write_loop (suc fuel) fd (b ∷ bytes) w =
      after_write (write_loop fuel fd) (b ∷ bytes) (write fd (b ∷ bytes) w)

  unfoldable pub write_all : ℕ → Bytes → World → WriteEnd × World
  unfolding write_loop
  write_all fd bytes w = write_loop (length bytes) fd bytes w

module _ (kernel : Kernel) (redis : RedisServer) (heap : HeapLibrary) where
  open kernel use {World, watch_input, watch_both, unwatch, close}
  open redis use {State}
  open heap use {Heap}

  abbrev pub Gateway : Type 0
  Gateway = Server World State Heap

  unfoldable pub log_out : Bytes → ℕ → Gateway → Gateway
  unfolding remove_fd
  log_out username fd s = elim (find bytes_discrete username s.user_map) [
    | none ↦ s
    | some fds ↦
        let left = remove_fd fd fds in
        let r = (user_logout redis username s.gateway_id fd s.redis).1 in
        record s {
          redis = r;
          user_map =
              if is_empty left
              then erase bytes_discrete username s.user_map
              else insert bytes_discrete username left s.user_map;
        }
  ]

  unfoldable pub disconnect_client : ℕ → Gateway → Gateway
  unfolding log_out
  disconnect_client fd s = elim (find ℕ_discrete fd s.connections) [
    | none ↦ s
    | some conn ↦
        let s1 = if is_empty conn.username then s else log_out conn.username fd s in
        record s1 {
          connections = erase ℕ_discrete fd s1.connections;
          world = close fd (unwatch fd s1.world);
        }
  ]

  abbrev pub put : ℕ → Connection → World → Gateway → Gateway
  put fd conn w s = record s { connections = insert ℕ_discrete fd conn s.connections; world = w }

  -- Behind EAGAIN: the rest is kept, and the descriptor is watched for output.
  unfoldable pub keep_rest : ℕ → Connection → Bytes → World → Gateway → Gateway
  unfolding disconnect_client
  keep_rest fd conn rest w s =
      let (watched, w1) = watch_both fd w in
      let s1 = put fd (record conn { write_buffer = rest; write_pending = true }) w1 s in
      if conn.write_pending
      then put fd (record conn { write_buffer = rest }) w s
      else if watched
      then s1
      else disconnect_client fd s1

  unfoldable pub after_send : ℕ → Connection → Gateway → WriteEnd × World → Gateway
  unfolding keep_rest disconnect_client
  after_send fd conn s (all_written, w) = put fd conn w s
  after_send fd conn s (blocked rest, w) = keep_rest fd conn rest w s
  after_send fd conn s (broken, w) = disconnect_client fd (put fd conn w s)
  after_send fd conn s (out_of_fuel, w) = put fd conn w s

  unfoldable pub send_on : ℕ → Bytes → Gateway → Connection → Gateway
  unfolding after_send write_all pack
  send_on fd msg s conn =
      let bytes = pack conn msg in
      if is_empty conn.write_buffer
      then after_send fd conn s (write_all kernel fd bytes s.world)
      else put fd (record conn { write_buffer = conn.write_buffer ++ bytes }) s.world s

  unfoldable pub send_to_client : ℕ → Bytes → Gateway → Gateway
  unfolding send_on
  send_to_client fd msg s = elim (find ℕ_discrete fd s.connections) [
    | none ↦ s
    | some conn ↦ send_on fd msg s conn
  ]

  -- The buffer is empty, and the descriptor is watched for input only. A failure is logged.
  unfoldable pub all_flushed : ℕ → Connection → World → Gateway → Gateway
  all_flushed fd conn w s =
      put fd (record conn { write_buffer = []; write_pending = false }) (watch_input fd w).1 s

  unfoldable pub after_flush : ℕ → Connection → Gateway → WriteEnd × World → Gateway
  unfolding all_flushed disconnect_client
  after_flush fd conn s (all_written, w) = all_flushed fd conn w s
  after_flush fd conn s (blocked rest, w) = put fd (record conn { write_buffer = rest }) w s
  after_flush fd conn s (broken, w) = disconnect_client fd (put fd conn w s)
  after_flush fd conn s (out_of_fuel, w) = put fd conn w s

  unfoldable pub handle_write : ℕ → Gateway → Gateway
  unfolding after_flush write_all
  handle_write fd s = elim (find ℕ_discrete fd s.connections) [
    | none ↦ s
    | some conn ↦ after_flush fd conn s (write_all kernel fd conn.write_buffer s.world)
  ]

  unfoldable pub push_each : Bytes → MessagePriority → List ℕ → Heap → Heap
  push_each msg priority [] q = q
  push_each msg priority (fd ∷ fds) q =
      push_each msg priority fds (queue_push heap msg fd priority q)

  unfoldable pub send_to_user : Bytes → Bytes → MessagePriority → Gateway → Gateway
  unfolding push_each
  send_to_user username msg priority s = elim (find bytes_discrete username s.user_map) [
    | none ↦ s
    | some fds ↦ record s { priority_q = push_each msg priority fds s.priority_q }
  ]

  unfoldable pub send_each : List ℕ → Bytes → Gateway → Gateway
  unfolding send_to_client
  send_each [] msg s = s
  send_each (fd ∷ fds) msg s = send_each fds msg (send_to_client fd msg s)

  -- `none` is the descriptor -1.
  unfoldable pub fds_but : Option ℕ → List (ℕ × Connection) → List ℕ
  fds_but exclude_fd [] = []
  fds_but none ((fd, conn) ∷ m) = fd ∷ fds_but none m
  fds_but (some out) ((fd, conn) ∷ m) =
      let rest = fds_but (some out) m in if fd == out then rest else fd ∷ rest

  unfoldable pub broadcast : Bytes → Option ℕ → Gateway → Gateway
  unfolding send_each fds_but
  broadcast msg exclude_fd s = send_each (fds_but exclude_fd s.connections) msg s
