-- ===== src/Codec/Parse.antt =====
-- gateway/src/WebSocketCodec.cpp, `tryParseFrame`: the resumable parser of client frames.
pub mod Lengths
pub mod RoundTrip
pub mod Extended
pub mod Wedged
pub mod Invariant
pub mod Consumes
use distributed_im.Common.{
  ℕ, ◌+◌, ◌-◌, ◌*◌, ◌/◌, ◌%◌, ◌^◌, min, Bool, true, false, [], ◌∷◌, ◌++◌, Bytes, length, set, take,
  drop, bit_or, ltb, leb, ◌==◌, if◌then◌else◌,
}
use distributed_im.Codec.{WsFrame, apply_mask}

pub data WsParseStage : Type 0 where
  header_basic header_extended_len header_mask_key in_payload complete : WsParseStage

pub record WsFrameParseState : Type 0 where
  pub stage : WsParseStage
  pub fin : Bool
  pub opcode : ℕ
  pub masked : Bool
  pub mask_key : Bytes
  pub payload_length : ℕ
  pub bytes_consumed : ℕ
  pub bytes_needed : ℕ

abbrev pub initial_state : WsFrameParseState
initial_state = record {
  stage = header_basic;
  fin = false;
  opcode = 0;
  masked = false;
  mask_key = 0 ∷ 0 ∷ 0 ∷ 0 ∷ [];
  payload_length = 0;
  bytes_consumed = 0;
  bytes_needed = 0;
}

-- The mask key is left as it is.
unfoldable pub reset : WsFrameParseState → WsFrameParseState
reset st = record st {
  stage = header_basic;
  fin = false;
  opcode = 0;
  masked = false;
  payload_length = 0;
  bytes_consumed = 0;
  bytes_needed = 0;
}

-- `uint64_t` addition and subtraction.
abbrev pub add64 : ℕ → ℕ → ℕ
add64 a b = (a + b) % 2 ^ 64

abbrev pub sub64 : ℕ → ℕ → ℕ
sub64 a b = (a + 2 ^ 64 - b) % 2 ^ 64

-- What `tryParseFrame` returns and leaves in its reference arguments.
pub record Parsed : Type 0 where
  pub has_frame : Bool
  pub buffer : Bytes
  pub frame : WsFrame
  pub state : WsFrameParseState

abbrev pub wait_more : Bytes → WsFrame → WsFrameParseState → Parsed
wait_more buffer frame st = record { has_frame = false; buffer = buffer; frame = frame; state = st }

-- A stage either returns false or falls through to the next.
pub data Flow : Type 0 where
  waits : Bytes → WsFrameParseState → Flow
  goes_on : Bytes → WsFrameParseState → Flow

-- The stage that follows the two basic bytes, entered with `n` bytes to come.
abbrev pub enter : WsFrameParseState → WsParseStage → ℕ → WsFrameParseState
enter st s n = record st { stage = s; bytes_needed = n; bytes_consumed = 0 }

unfoldable pub parse_basic : Bytes → WsFrame → WsFrameParseState → Parsed
parse_basic [] frame st = wait_more [] frame st
parse_basic (b0 ∷ []) frame st = wait_more (b0 ∷ []) frame st
parse_basic (b0 ∷ b1 ∷ rest) frame st =
    let st1 = record st { fin = b0 / 128 % 2 == 1; opcode = b0 % 16; masked = b1 / 128 % 2 == 1 } in
    let len : ℕ = b1 % 128 in
    let st2 = record st1 { payload_length = len } in
    if b1 / 128 % 2 == 1
    then (if len == 126
        then wait_more rest frame (enter st2 header_extended_len 2)
        else if len == 127
        then wait_more rest frame (enter st2 header_extended_len 8)
        else wait_more rest frame (enter st2 header_mask_key 4))
    else wait_more (b0 ∷ b1 ∷ rest) frame st1

-- `payload_length = (payload_length << 8) | buffer[i]`, over the bytes at hand.
unfoldable pub read_length : ℕ → Bytes → ℕ
read_length len [] = len
read_length len (b ∷ bs) = read_length (bit_or (len * 256 % 2 ^ 64) b) bs

unfoldable pub parse_extended : Bytes → WsFrameParseState → Flow
unfolding read_length
parse_extended buffer st =
    let avail = min (length buffer) (sub64 st.bytes_needed st.bytes_consumed) in
    let rest = drop avail buffer in
    let st1 = record st {
      payload_length = read_length st.payload_length (take avail buffer);
      bytes_consumed = add64 st.bytes_consumed avail;
    } in
    if avail == 0
    then waits buffer st
    else if leb st.bytes_needed (add64 st.bytes_consumed avail)
    then goes_on rest (enter st1 header_mask_key 4)
    else waits rest st1

-- `mask_key[at + i] = buffer[i]`.
unfoldable pub write_key : Bytes → ℕ → Bytes → Bytes
write_key key at [] = key
write_key key at (b ∷ bs) = write_key (set key at b) (at + 1) bs

unfoldable pub parse_mask_key : ℕ → Bytes → WsFrameParseState → Flow
unfolding write_key
parse_mask_key max_size buffer st =
    let avail = min (length buffer) (sub64 4 st.bytes_consumed) in
    let rest = drop avail buffer in
    let st1 = record st {
      mask_key = write_key st.mask_key st.bytes_consumed (take avail buffer);
      bytes_consumed = add64 st.bytes_consumed avail;
    } in
    if avail == 0
    then waits buffer st
    else if leb 4 (add64 st.bytes_consumed avail)
    then (if ltb max_size st.payload_length
        then waits rest st1
        else goes_on rest (enter st1 in_payload st.payload_length))
    else waits rest st1

unfoldable pub parse_payload : Bytes → WsFrame → WsFrameParseState → Parsed
unfolding reset apply_mask
parse_payload buffer frame st =
    let avail = min (length buffer) (sub64 st.bytes_needed st.bytes_consumed) in
    let rest = drop avail buffer in
    let received = frame.payload ++ take avail buffer in
    let done : WsFrame = record {
      fin = st.fin;
      opcode = st.opcode;
      is_control = st.opcode / 8 % 2 == 1;
      payload = apply_mask received st.mask_key;
    } in
    if avail == 0
    then wait_more buffer frame st
    else if leb st.bytes_needed (add64 st.bytes_consumed avail)
    then record { has_frame = true; buffer = rest; frame = done; state = reset st }
    else wait_more rest (record frame { payload = received })
        (record st { bytes_consumed = add64 st.bytes_consumed avail })

unfoldable pub after_mask_key : WsFrame → Flow → Parsed
unfolding parse_payload
after_mask_key frame (waits buffer st) = wait_more buffer frame st
after_mask_key frame (goes_on buffer st) = parse_payload buffer frame st

unfoldable pub after_extended : ℕ → WsFrame → Flow → Parsed
unfolding parse_mask_key after_mask_key
after_extended max_size frame (waits buffer st) = wait_more buffer frame st
after_extended max_size frame (goes_on buffer st) =
    after_mask_key frame (parse_mask_key max_size buffer st)

unfoldable pub parse_stage : WsParseStage → ℕ → Bytes → WsFrame → WsFrameParseState → Parsed
unfolding parse_basic parse_extended parse_mask_key parse_payload after_mask_key after_extended
parse_stage header_basic max_size buffer frame st = parse_basic buffer frame st
parse_stage header_extended_len max_size buffer frame st =
    after_extended max_size frame (parse_extended buffer st)
parse_stage header_mask_key max_size buffer frame st =
    after_mask_key frame (parse_mask_key max_size buffer st)
parse_stage in_payload max_size buffer frame st = parse_payload buffer frame st
parse_stage complete max_size buffer frame st = wait_more buffer frame st

-- `max_size` is the static member `max_payload_size_`.
unfoldable pub try_parse_frame : ℕ → Bytes → WsFrame → WsFrameParseState → Parsed
unfolding parse_stage
try_parse_frame max_size [] frame st = wait_more [] frame st
try_parse_frame max_size (b ∷ bs) frame st = parse_stage st.stage max_size (b ∷ bs) frame st
