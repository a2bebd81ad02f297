-- ===== src/Codec/Encode.antt =====
-- gateway/src/WebSocketCodec.cpp, frame generation: header bytes and the server's unmasked frames.
use distributed_im.Common.{
  ℕ, zero, suc, ◌*◌, ◌/◌, ◌%◌, ◌^◌, Bool, true, false, [], ◌∷◌, ◌++◌, Option, none, some, Bytes,
  length, bit_or, leb, if◌then◌else◌,
}
use distributed_im.Codec.{
  WsOpcode, text, binary, close, pong, opcode_value, WsCloseCode, close_value,
}

-- `for (i = n - 1; i >= 0; --i) push_back((len >> (i * 8)) & 0xFF)`.
unfoldable pub big_endian : ℕ → ℕ → Bytes
big_endian zero len = []
big_endian (suc i) len = (len / 2 ^ (i * 8)) % 256 ∷ big_endian i len

-- The second header byte, which already holds the mask bit, and the extended length.
unfoldable pub length_field : ℕ → ℕ → Bytes
unfolding big_endian
length_field b1 len =
    if leb len 125
    then bit_or b1 (len % 256) ∷ []
    else if leb len 65535
    then bit_or b1 126 ∷ (len / 256) % 256 ∷ len % 256 ∷ []
    else bit_or b1 127 ∷ big_endian 8 len

-- `none` is the null pointer.
unfoldable pub key_field : Bool → Option Bytes → Bytes
key_field true (some key) = key
key_field true none = []
key_field false key = []

unfoldable pub append_frame_header : Bytes → Bool → ℕ → Bool → ℕ → Option Bytes → Bytes
unfolding length_field key_field
append_frame_header frame fin opcode masked payload_len mask_key =
    let b0 = bit_or (if fin then 0x80 else 0x00) (opcode % 16) in
    let b1 : ℕ = if masked then 0x80 else 0x00 in
    frame ++ (b0 ∷ (length_field b1 payload_len ++ key_field masked mask_key))

-- The body that the `encode…` functions share.
unfoldable pub encode_frame : WsOpcode → Bytes → Bytes
unfolding append_frame_header opcode_value
encode_frame op payload =
    append_frame_header [] true (opcode_value op) false (length payload) none ++ payload

unfoldable pub encode_text : Bytes → Bytes
unfolding encode_frame
encode_text message = encode_frame text message

unfoldable pub encode_binary : Bytes → Bytes
unfolding encode_frame
encode_binary content = encode_frame binary content

unfoldable pub close_payload : WsCloseCode → Bytes → Bytes
unfolding close_value
close_payload status reason = (close_value status / 256) % 256 ∷ close_value status % 256 ∷ reason

unfoldable pub encode_close : WsCloseCode → Bytes → Bytes
unfolding encode_frame close_payload
encode_close status reason = encode_frame close (close_payload status reason)

unfoldable pub encode_pong : Bytes → Bytes
unfolding encode_frame
encode_pong ping_data = encode_frame pong ping_data
