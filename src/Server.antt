-- ===== src/Server.antt =====
-- gateway/include/Connection.h, the state of EpollServer (gateway/include/EpollServer.h), and the system calls on
-- sockets, which are a parameter with what POSIX says of them.
pub mod Send
pub mod Written
pub mod Delivery
pub mod Handlers
pub mod Untouched
pub mod Timeouts
pub mod Loop
pub mod Login
pub mod Stale
pub mod Control
pub mod Closing
pub mod Messages
pub mod GroupMessages
pub mod Dispatch
pub mod Read
pub mod Events
pub mod Isolation
pub mod Tracking
pub mod Unheard
pub mod Unauthorised
pub mod WellFormed
use distributed_im.Common.{ℕ, ◌≤◌, ◌≡◌, Bool, true, false, List, [], ◌++◌, Bytes, length, take}
use distributed_im.Codec.Parse.{WsFrameParseState, initial_state, reset}
use distributed_im.Ack.{Tracker}
use distributed_im.RateLimit.{RateLimiter, new_limiter}

pub data Protocol : Type 0 where
  tcp websocket unknown : Protocol

pub record WsState : Type 0 where
  pub parse_state : WsFrameParseState
  pub raw_buffer : Bytes
  pub pending_upgrade_request : Bytes
  pub in_fragmented : Bool
  pub fragment_opcode : ℕ
  pub reassembly_buf : Bytes

abbrev pub new_ws_state : WsState
new_ws_state = record {
  parse_state = initial_state;
  raw_buffer = [];
  pending_upgrade_request = [];
  in_fragmented = false;
  fragment_opcode = 0;
  reassembly_buf = [];
}

unfoldable pub reset_ws : WsState → WsState
unfolding reset
reset_ws ws = record {
  parse_state = reset ws.parse_state;
  raw_buffer = [];
  pending_upgrade_request = [];
  in_fragmented = false;
  fragment_opcode = 0;
  reassembly_buf = [];
}

-- The descriptor is the key in the server's map. No code reads or writes `pending_acks`.
pub record Connection : Type 0 where
  pub username : Bytes
  pub is_login : Bool
  pub protocol : Protocol
  pub read_buffer : Bytes
  pub write_buffer : Bytes
  pub write_pending : Bool
  pub last_active : ℕ
  pub device_id : Bytes
  pub ws : WsState
  pub rate_limiter : RateLimiter

-- `now` in seconds, and the steady clock in microseconds.
unfoldable pub new_connection : ℕ → ℕ → Connection
unfolding new_limiter
new_connection now clock = record {
  username = [];
  is_login = false;
  protocol = unknown;
  read_buffer = [];
  write_buffer = [];
  write_pending = false;
  last_active = now;
  device_id = [];
  ws = new_ws_state;
  rate_limiter = new_limiter 10 20 clock;
}

-- What `write` gives: the number of bytes taken, EAGAIN or EWOULDBLOCK, or another error.
pub data WriteResult : Type 0 where
  would_block write_failed : WriteResult
  wrote : ℕ → WriteResult

-- `written` is what the kernel has taken for a descriptor, in order, and `wants_output` whether epoll reports when the
-- descriptor is writable; the laws are those of write(2), and of epoll_ctl(2), which moves no bytes.
pub record Kernel : Type 1 where
  pub World : Type 0
  pub write : ℕ → Bytes → World → WriteResult × World
  pub watch_input : ℕ → World → Bool × World
  pub watch_both : ℕ → World → Bool × World
  pub add_input : ℕ → World → Bool × World
  pub unwatch : ℕ → World → World
  pub close : ℕ → World → World
  pub written : ℕ → World → Bytes
  pub wants_output : ℕ → World → Bool
  pub write-wrote :
      (fd n : ℕ) (bytes : Bytes) (w w' : World)
      → write fd bytes w ≡ (wrote n, w')
      → (n ≤ length bytes) × (written fd w' ≡ written fd w ++ take n bytes)
  pub write-would_block :
      (fd : ℕ) (bytes : Bytes) (w w' : World)
      → write fd bytes w ≡ (would_block, w')
      → written fd w' ≡ written fd w
  pub watch_both-written : (fd : ℕ) (w : World) → written fd (watch_both fd w).1 ≡ written fd w
  pub watch_input-written : (fd : ℕ) (w : World) → written fd (watch_input fd w).1 ≡ written fd w
  pub unwatch-written : (fd : ℕ) (w : World) → written fd (unwatch fd w) ≡ written fd w
  pub close-written : (fd : ℕ) (w : World) → written fd (close fd w) ≡ written fd w
  pub watch_both-wants_output :
      (fd : ℕ) (w : World) → (watch_both fd w).0 ≡ true → wants_output fd (watch_both fd w).1 ≡ true
  pub write-wants_output :
      (fd : ℕ) (bytes : Bytes) (w : World)
      → wants_output fd (write fd bytes w).1 ≡ wants_output fd w

-- The members of EpollServer, over the kernel's state, that of Redis, and the heap of the message queue.
pub record Server (W R Q : Type 0) : Type 0 where
  pub connections : List (ℕ × Connection)
  pub user_map : List (Bytes × List ℕ)
  pub gateway_id : ℕ
  pub redis : R
  pub ack_tracker : Tracker
  pub priority_q : Q
  pub world : W
