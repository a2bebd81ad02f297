-- ===== src/Tests/Reading.antt =====
-- Reading on the kernel and the Redis of the tests of the server.
use mathlib.Core.Option.{some-injective}
use distributed_im.Common.{
  List, none, sym, ◌∙◌, ◌≡◌, ◌≢◌, refl, ap, true, false, [], ◌∷◌, ◌++◌, some, get_or, arith,
}
use distributed_im.Common.Assoc.{find, ℕ_discrete, bytes_discrete}
use distributed_im.Common.Text.{codes, starts_with}
use distributed_im.Json.{
  JsonLibrary, object, field, end, text, get_json_type, string_in, member, find_field, text_of,
}
use distributed_im.Codec.{opcode_value, close}
use distributed_im.Codec.Parse.{
  header_mask_key, try_parse_frame, parse_stage, parse_mask_key, write_key, after_mask_key,
  parse_payload, reset,
}
use distributed_im.Priority.{normal}
use distributed_im.Ack.{new_entry}
use distributed_im.Ack.Lookup.{lookup}
use distributed_im.Server.{Connection, new_connection}
use distributed_im.Server.Send.{Gateway, push_each}
use distributed_im.Server.Handlers.{trim_trailing_whitespace}
use distributed_im.Server.Messages.{deliver_here}
use distributed_im.Server.Dispatch.{handle_message}
use distributed_im.Server.Isolation.{KeepsInput, Isolated}
use distributed_im.Server.Isolation.Messages.{handle_message-Isolated}
use distributed_im.Server.Tracking.{deliver_here-last}
use distributed_im.Server.Read.{
  Received, closed, dangling, after, Setup, check_overflow, handle_lines,
}
use distributed_im.Server.Read.Lines.{Ends}
use distributed_im.Server.Read.Framing.{split_lines, run_lines, handle_lines-split_lines}
use distributed_im.Server.Read.Frames.{ws_chunk}
use distributed_im.Server.Read.Closed.{next_frame, ws_chunk-close}
use distributed_im.Server.Events.{Event, Round, incoming, client_ready, server_round, loop}
use distributed_im.Server.WellFormed.{WellFormed}
use distributed_im.Server.WellFormed.Reading.{Holds}
use distributed_im.Server.WellFormed.Rounds.{loop-WellFormed}
use distributed_im.Server.WellFormed.Finish.{finish_round-active}
use distributed_im.Server.Timeouts.{active}
use distributed_im.Server.Control.{finish_round}
use distributed_im.Server.Events.Total.{server_round-Ends}
use distributed_im.Tests.Priority.{list_heap}
use distributed_im.Tests.Server.{slow_kernel, no_redis, client, browser, gateway, is_client}

-- Every text is a chat message.
abbrev pub chat_json : JsonLibrary
chat_json = record {
  parse = λ s. some (object (field (codes "type") (text (codes "chat")) end));
  dump = λ members. codes "{}";
}

abbrev pub setup : Setup
setup = record {
  rate_limit_enabled = true;
  max_size = 65_536;
  metrics = [];
  sha1 = λ s. s;
  order = λ names. names;
}

abbrev two_lines : Received
two_lines = record {
  bytes = codes "hello" ++ (10 ∷ (codes "x" ++ (10 ∷ [])));
  now = 100;
  clock = 0;
}

-- A client that sends two lines and closes, and one that is accepted.
abbrev events : List Event
events = client_ready 4 (some (two_lines ∷ [], closed)) true ∷ incoming (some 9) true 100 0 ∷ []

server_round-Ends_example :
    Ends (server_round slow_kernel no_redis list_heap chat_json setup 5 100 300 events gateway)
server_round-Ends_example =
    server_round-Ends slow_kernel no_redis list_heap chat_json setup 5 100 300 events gateway

-- A client comes, sends two lines, and is served.
abbrev rounds : List Round
rounds =
    record { fuel = 5; now = 100; timeout = 300; events = some (incoming (some 4) true 100 0 ∷ []) }
    ∷ record { fuel = 5; now = 101; timeout = 300; events = none }
    ∷ record { fuel = 5; now = 102; timeout = 300; events = some events }
    ∷ []

gateway-WellFormed : WellFormed slow_kernel no_redis list_heap gateway
unfolding find new_connection
gateway-WellFormed = ((refl, tt), ((λ h. absurd (cc (h))), tt))

abbrev at_start : Gateway slow_kernel no_redis list_heap
at_start = record gateway { connections = []; user_map = [] }

loop-WellFormed_example :
    Holds
      (WellFormed slow_kernel no_redis list_heap)
      (loop slow_kernel no_redis list_heap chat_json setup rounds at_start)
loop-WellFormed_example =
    loop-WellFormed slow_kernel no_redis list_heap chat_json setup rounds at_start refl

finish_round-active_example :
    let s' = finish_round slow_kernel no_redis list_heap 5 200 300 gateway in
    (find ℕ_discrete 4 s'.connections ≡ active 200 300 (find ℕ_discrete 4 s'.connections))
finish_round-active_example =
    finish_round-active slow_kernel no_redis list_heap chat_json setup 5 200 300 4 gateway
      gateway-WellFormed

-- The client has sent two lines and the front of a third.
abbrev writer : Connection
writer = record client { read_buffer = two_lines.bytes ++ codes "y" }

abbrev at_writer : Gateway slow_kernel no_redis list_heap
at_writer = record gateway { connections = (4, writer) ∷ [] }

is_writer : find ℕ_discrete 4 at_writer.connections ≡ some writer
unfolding find ℕ_discrete
is_writer = refl

splits_run : split_lines writer.read_buffer ≡ codes "hello" ∷ codes "x" ∷ []
unfolding split_lines
splits_run = refl

handle_lines-split_lines_example :
    handle_lines slow_kernel no_redis list_heap chat_json setup 4 two_lines at_writer
    ≡ after (check_overflow slow_kernel no_redis list_heap chat_json setup 4) (
        run_lines slow_kernel no_redis list_heap chat_json setup 4 two_lines
          (split_lines writer.read_buffer)
          at_writer)
handle_lines-split_lines_example =
    handle_lines-split_lines slow_kernel no_redis list_heap chat_json setup 4 two_lines writer
      at_writer is_writer

pub no_login : starts_with (codes "LOGIN ") (trim_trailing_whitespace (codes "hello")) ≡ false
unfolding starts_with trim_trailing_whitespace
no_login = refl

pub is_chat : get_json_type chat_json (trim_trailing_whitespace (codes "hello")) ≢ codes "login"
unfolding get_json_type string_in member find_field text_of bytes_discrete ℕ_discrete
is_chat e = absurd (omega (arith, ap (λ l. get_or l 0 0) e))

pub is_out : client.is_login ≡ false
unfolding new_connection
is_out = refl

client-KeepsInput : KeepsInput slow_kernel no_redis list_heap 4 client gateway
client-KeepsInput c e =
    let same : c ≡ client = some-injective c client (sym e ∙ is_client) in
    (ap (λ (c : Connection). c.read_buffer) same, ap (λ (c : Connection). c.ws) same)

handle_message-Isolated_example : Isolated slow_kernel no_redis list_heap 4 client gateway (
    handle_message slow_kernel no_redis list_heap chat_json setup.order true 100 0 4 client
      (codes "hello")
      gateway)
handle_message-Isolated_example =
    handle_message-Isolated slow_kernel no_redis list_heap chat_json setup.order true 100 0 4 client
      (codes "hello") gateway client-KeepsInput

-- A WebSocket client that has sent the first two bytes of a close frame with two bytes of payload.
abbrev closing : Connection
closing = record browser {
  ws = record browser.ws {
    parse_state = record browser.ws.parse_state {
      stage = header_mask_key;
      fin = true;
      opcode = 8;
      masked = true;
      payload_length = 2;
      bytes_needed = 4;
    };
  };
}

abbrev at_closing : Gateway slow_kernel no_redis list_heap
at_closing = record gateway { connections = (4, closing) ∷ [] }

-- The mask and the code 1000.
abbrev close_bytes : Received
close_bytes = record { bytes = 0 ∷ 0 ∷ 0 ∷ 0 ∷ 3 ∷ 232 ∷ []; now = 100; clock = 0 }

is_closing : find ℕ_discrete 4 at_closing.connections ≡ some closing
unfolding find ℕ_discrete
is_closing = refl

closing_frame :
    let p =
      next_frame slow_kernel no_redis list_heap chat_json setup closing.ws close_bytes.bytes in
    (p.has_frame ≡ true) × (p.frame.is_control ≡ true) × (p.frame.opcode ≡ opcode_value close)
unfolding try_parse_frame parse_stage parse_mask_key write_key after_mask_key parse_payload reset
    opcode_value new_connection
closing_frame = (refl, refl, refl)

ws_chunk-close_example :
    ws_chunk slow_kernel no_redis list_heap chat_json setup 4 close_bytes at_closing ≡ dangling
ws_chunk-close_example =
    ws_chunk-close slow_kernel no_redis list_heap chat_json setup 4 close_bytes closing at_closing
      is_closing closing_frame.0 closing_frame.1 closing_frame.2

-- Bob has two devices.
abbrev two_devices : Gateway slow_kernel no_redis list_heap
two_devices = record gateway { user_map = (codes "bob", 4 ∷ 5 ∷ []) ∷ [] }

is_bob : find bytes_discrete (codes "bob") two_devices.user_map ≡ some ((4 ∷ []) ++ (5 ∷ []))
unfolding find bytes_discrete ℕ_discrete
is_bob = refl

deliver_here-last_example :
    let s' =
      deliver_here slow_kernel no_redis list_heap chat_json 100
        (codes "m2")
        (codes "bob")
        (codes "hi")
        two_devices in
    (lookup (codes "m2") s'.ack_tracker
      ≡ some (new_entry (codes "m2") (codes "bob") (codes "hi") 5 100))
    × (s'.priority_q
        ≡ push_each slow_kernel no_redis list_heap
            (codes "hi")
            normal
            ((4 ∷ []) ++ (5 ∷ []))
            two_devices.priority_q)
deliver_here-last_example =
    deliver_here-last slow_kernel no_redis list_heap chat_json 100 (codes "m2") (codes "bob")
      (codes "hi") (4 ∷ []) 5 two_devices refl is_bob
