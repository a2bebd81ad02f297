-- ===== src/Tests/Server.antt =====
-- The server over a kernel that takes a few bytes at a time for one descriptor, and a Redis that is not
-- connected.
use mathlib.Core.Option
use distributed_im.Common.{
  List, ℕ, zero, suc, ◌-◌, sym, ◌∙◌, ◌≤◌, ◌≡◌, refl, ap, ◌⊎◌, Bool, true, false, [], ◌∷◌, ◌++◌,
  none, some, Bytes, length, take, min, arith,
}
use distributed_im.Common.Assoc.{bytes_discrete, find, insert, ℕ_discrete}
use distributed_im.Common.Text.{codes}
use distributed_im.Ack.{new_entry}
use distributed_im.Ack.Lookup.{lookup, alive}
use distributed_im.Ack.Retries.{pass_entry}
use distributed_im.Codec.{normal, close_value, opcode_value}
use distributed_im.Codec.Encode.{
  encode_close, encode_text, encode_frame, append_frame_header, length_field, key_field,
  close_payload,
}
use distributed_im.Codec.Decoding.{decode_frame}
use distributed_im.Server.Control.{answer_close}
use distributed_im.Server.Closing.{answer_close_lem}
use distributed_im.Server.{websocket}
use distributed_im.Redis.Users.{user_login}
use distributed_im.Common.Decimal.{pos}
use distributed_im.Common.{◌≢◌, get_or}
use distributed_im.Json.{Members}
use distributed_im.Server.Login.{perform_login}
use distributed_im.Server.Stale.{perform_login-stale}
use distributed_im.Server.Send.{disconnect_client}
use distributed_im.Redis.{check_reply, is_one, integer, login_script, Reply, lost, RedisServer}
use distributed_im.Server.{tcp, Connection, new_connection, WriteResult, wrote, would_block, Kernel}
use distributed_im.Server.Send.{
  all_written, write_loop, after_write, broken, write_all, pack, Gateway, send_to_client,
  handle_write,
}
use distributed_im.Server.Delivery.{Kept, IsArmed, send_to_client_lem, handle_write_lem}
use distributed_im.Server.Untouched.{SameButAt, send_to_client-SameButAt}
use distributed_im.Server.Timeouts.{active, check_timeouts_lem}
use distributed_im.Server.Handlers.{check_timeouts, check_ack_retries, deliver_queue}
use distributed_im.Server.Loop.{
  check_ack_retries_lem, deliver_queue-empty, send_in_turn, deliver_queue_lem,
}
use mathlib.Core.List.{Perm}
use distributed_im.Priority.{PriorityMessage}
use distributed_im.Priority.Drain.{IsByPriority}
use distributed_im.Tests.Priority.{list_heap, two_queued}

-- The room in the socket's buffer, and what was taken.
abbrev pub Socket : Type 0
Socket = ℕ × Bytes

pub slow_write : ℕ → Bytes → Socket → WriteResult × Socket
slow_write fd bytes (zero, out) = (would_block, (zero, out))
slow_write fd bytes (suc room, out) =
    let n = min (suc room) (length bytes) in (wrote n, (suc room - n, out ++ take n bytes))

count : WriteResult → ℕ
count (wrote n) = n
count _ = 0

is_wrote : WriteResult → Bool
is_wrote (wrote n) = true
is_wrote _ = false

pub slow_write-wrote :
    (fd n : ℕ) (bytes : Bytes) (w w' : Socket)
    → slow_write fd bytes w ≡ (wrote n, w')
    → (n ≤ length bytes) × (w'.1 ≡ w.1 ++ take n bytes)
unfolding slow_write count is_wrote
slow_write-wrote fd n bytes (zero, out) w' e = absurd (cc)
slow_write-wrote fd n bytes (suc room, out) w' e =
    let taken : min (suc room) (length bytes) ≡ n = ap (λ r. count r.0) e in
    let grown : out ++ take (min (suc room) (length bytes)) bytes ≡ w'.1 = ap (λ r. r.1.1) e in
    (omega (arith, taken), sym grown ∙ ap (λ k. out ++ take k bytes) taken)

pub slow_write-would_block :
    (fd : ℕ) (bytes : Bytes) (w w' : Socket)
    → slow_write fd bytes w ≡ (would_block, w')
    → w'.1 ≡ w.1
unfolding slow_write is_wrote
slow_write-would_block fd bytes (zero, out) w' e = sym (ap (λ r. r.1.1) e)
slow_write-would_block fd bytes (suc room, out) w' e = absurd (cc)

abbrev pub slow_kernel : Kernel
slow_kernel = record {
  World = Socket;
  write = slow_write;
  watch_input = λ fd w. (true, w);
  watch_both = λ fd w. (true, w);
  add_input = λ fd w. (true, w);
  unwatch = λ fd w. w;
  close = λ fd w. w;
  written = λ fd w. w.1;
  wants_output = λ fd w. true;
  write-wrote = slow_write-wrote;
  write-would_block = slow_write-would_block;
  watch_both-written = λ fd w. refl;
  watch_input-written = λ fd w. refl;
  unwatch-written = λ fd w. refl;
  close-written = λ fd w. refl;
  watch_both-wants_output = λ fd w e. refl;
  write-wants_output = λ fd bytes w. refl;
}

abbrev pub no_reply : Unit {0} → Reply × Unit {0}
no_reply s = (lost, s)

abbrev pub no_redis : RedisServer
no_redis = record {
  State = Unit {0};
  is_connected = λ s. false;
  sadd = λ key member. no_reply;
  srem = λ key member. no_reply;
  sismember = λ key member. no_reply;
  smembers = λ key. no_reply;
  srandmember = λ key. no_reply;
  scard = λ key. no_reply;
  hset = λ key field value. no_reply;
  hget = λ key field. no_reply;
  rpush = λ key msg. no_reply;
  lpop = λ key. no_reply;
  del = λ key. no_reply;
  exists = λ key. no_reply;
  incr = λ key. no_reply;
  eval = λ script. script;
}

abbrev pub client : Connection
client = record (new_connection 100 0) { protocol = tcp }

-- Room for three bytes, one client on descriptor 4, one message that waits for its ACK, and two queued.
abbrev pub gateway : Gateway slow_kernel no_redis list_heap
gateway = record {
  connections = (4, client) ∷ [];
  user_map = [];
  gateway_id = 7;
  redis = tt;
  ack_tracker = (codes "m1", new_entry (codes "m1") (codes "bob") (codes "hi") 4 100) ∷ [];
  priority_q = two_queued;
  world = (3, []);
}

-- Three bytes go out at once, and two wait.
send_run :
    let s = send_to_client slow_kernel no_redis list_heap 4 (codes "Hello") gateway in
    (s.world.1 ≡ codes "Hel")
    × (Option.map (λ c. c.write_buffer) (find ℕ_discrete 4 s.connections) ≡ some (codes "lo"))
unfolding send_to_client find new_connection slow_write ℕ_discrete insert
send_run = (refl, refl)

pub is_client : find ℕ_discrete 4 gateway.connections ≡ some client
unfolding find ℕ_discrete
is_client = refl

client-IsArmed : IsArmed slow_kernel no_redis list_heap 4 gateway.world client
unfolding new_connection
client-IsArmed = ((λ h. absurd (cc h)), (λ h. refl))

send_to_client_lem_example :
    let s = send_to_client slow_kernel no_redis list_heap 4 (codes "Hello") gateway in
    let r = write_all slow_kernel 4 (pack client (codes "Hello")) gateway.world in
    (Kept slow_kernel no_redis list_heap 4
        ([] ++ (client.write_buffer ++ pack client (codes "Hello")))
        s
      ⊎ (find ℕ_discrete 4 s.connections ≡ none) × ((r.0 ≡ broken) ⊎ (true ≡ false)))
send_to_client_lem_example =
    send_to_client_lem slow_kernel no_redis list_heap 4 (codes "Hello") gateway client is_client
      client-IsArmed

abbrev backlog : Connection
backlog = record client { write_buffer = codes "Hello"; write_pending = true }

abbrev behind : Gateway slow_kernel no_redis list_heap
behind = record gateway { connections = (4, backlog) ∷ [] }

is_backlog : find ℕ_discrete 4 behind.connections ≡ some backlog
unfolding find ℕ_discrete
is_backlog = refl

handle_write_lem_example :
    let s = handle_write slow_kernel no_redis list_heap 4 behind in
    (Kept slow_kernel no_redis list_heap 4 ([] ++ backlog.write_buffer) s
      ⊎ (find ℕ_discrete 4 s.connections ≡ none)
        × ((write_all slow_kernel 4 backlog.write_buffer behind.world).0 ≡ broken))
handle_write_lem_example =
    handle_write_lem slow_kernel no_redis list_heap 4 behind backlog is_backlog
      ((λ h. refl), (λ h. refl))

send_to_client-SameButAt_example :
    SameButAt slow_kernel no_redis list_heap 4 gateway
      (send_to_client slow_kernel no_redis list_heap 4 (codes "Hello") gateway)
send_to_client-SameButAt_example =
    send_to_client-SameButAt slow_kernel no_redis list_heap 4 (codes "Hello") gateway

check_timeouts_lem_example :
    find ℕ_discrete 4 (check_timeouts slow_kernel no_redis list_heap 200 60 gateway).connections
    ≡ active 200 60 (find ℕ_discrete 4 gateway.connections)
check_timeouts_lem_example =
    check_timeouts_lem slow_kernel no_redis list_heap 200 60 4 gateway (unfold find in refl, tt)

check_ack_retries_lem_example :
    lookup (codes "m1") (check_ack_retries slow_kernel no_redis list_heap 200 gateway).ack_tracker
    ≡ alive (Option.map (pass_entry 200) (lookup (codes "m1") gateway.ack_tracker))
check_ack_retries_lem_example =
    check_ack_retries_lem slow_kernel no_redis list_heap 200 (codes "m1") gateway
      (unfold new_entry in refl, tt) (unfold find in refl, tt)

deliver_queue-empty_example :
    length (deliver_queue slow_kernel no_redis list_heap (length two_queued) gateway).priority_q ≡ 0
deliver_queue-empty_example = deliver_queue-empty slow_kernel no_redis list_heap gateway

deliver_queue_lem_example :
    (sent : List PriorityMessage) × Perm two_queued sent
    × IsByPriority sent
    × (deliver_queue slow_kernel no_redis list_heap (length two_queued) gateway
        ≡ send_in_turn slow_kernel no_redis list_heap sent gateway)
deliver_queue_lem_example = deliver_queue_lem slow_kernel no_redis list_heap gateway

abbrev pub one_redis : Unit {0} → Reply × Unit {0}
one_redis s = (integer 1, s)

-- Redis accepts every script.
abbrev pub open_redis : RedisServer
open_redis = record {
  State = Unit {0};
  is_connected = λ s. true;
  sadd = λ key member. one_redis;
  srem = λ key member. one_redis;
  sismember = λ key member. one_redis;
  smembers = λ key. no_reply;
  srandmember = λ key. no_reply;
  scard = λ key. one_redis;
  hset = λ key field value. one_redis;
  hget = λ key field. no_reply;
  rpush = λ key msg. one_redis;
  lpop = λ key. no_reply;
  del = λ key. one_redis;
  exists = λ key. one_redis;
  incr = λ key. one_redis;
  eval = λ script. script;
}

-- The client is logged in as `ann`.
abbrev ann : Connection
ann = record client { username = codes "ann"; is_login = true }

abbrev pub with_ann : Gateway slow_kernel open_redis list_heap
with_ann = record {
  connections = (4, ann) ∷ [];
  user_map = (codes "ann", 4 ∷ []) ∷ [];
  gateway_id = 7;
  redis = tt;
  ack_tracker = [];
  priority_q = [];
  world = (3, []);
}

abbrev no_json : Members → Bytes
no_json members = codes "{}"

login_accepted : (user_login open_redis (codes "bob") 7 4 tt).0 ≡ pos 1
unfolding user_login login_script check_reply is_one
login_accepted = refl

ann≢bob : codes "bob" ≢ codes "ann"
ann≢bob e = absurd (omega (arith, ap (λ l. get_or l 0 0) e))

perform_login-stale_example :
    let s1 =
      (perform_login slow_kernel open_redis list_heap no_json 100 4 ann (codes "bob") with_ann).1 in
    let s2 = disconnect_client slow_kernel open_redis list_heap 4 s1 in
    (find bytes_discrete (codes "ann") s2.user_map
      ≡ find bytes_discrete (codes "ann") with_ann.user_map)
    × (find ℕ_discrete 4 s2.connections ≡ none)
perform_login-stale_example =
    perform_login-stale slow_kernel open_redis list_heap no_json 100 4 ann (codes "bob")
      (codes "ann") with_ann ann≢bob refl login_accepted

abbrev pub browser : Connection
browser = record client { protocol = websocket }

-- A client over WebSocket, and room for all bytes that go out.
abbrev at_browser : Gateway slow_kernel no_redis list_heap
at_browser = record gateway { connections = (4, browser) ∷ []; world = (100, []) }

is_browser : find ℕ_discrete 4 at_browser.connections ≡ some browser
unfolding find ℕ_discrete
is_browser = refl

no_waiting : browser.write_buffer ≡ []
unfolding new_connection
no_waiting = refl

all_taken :
    write_all slow_kernel 4 (pack browser (encode_close normal [])) at_browser.world
    ≡ (all_written, (94, 129 ∷ 4 ∷ 136 ∷ 2 ∷ 3 ∷ 232 ∷ []))
unfolding write_all write_loop after_write slow_write pack encode_text encode_close encode_frame
    append_frame_header length_field key_field close_payload close_value opcode_value
all_taken = refl

answer_close_lem_example :
    (bytes : Bytes) × ((answer_close slow_kernel no_redis list_heap 4 at_browser).world.1
      ≡ [] ++ bytes)
    × (decode_frame (bytes ++ [])
        ≡ some (record { fin = true; opcode = 1; payload = encode_close normal []; rest = [] }))
answer_close_lem_example =
    answer_close_lem slow_kernel no_redis list_heap 4 at_browser browser
      (94, 129 ∷ 4 ∷ 136 ∷ 2 ∷ 3 ∷ 232 ∷ []) [] is_browser refl no_waiting all_taken
