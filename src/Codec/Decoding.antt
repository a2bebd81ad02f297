-- ===== src/Codec/Decoding.antt =====
-- An independent reader of server frames, after RFC 6455 section 5.2, and the proof that it reads
-- back what `appendFrameHeader` and the `encode…` functions write, at every length.
use distributed_im.Common.{
  ℕ, zero, suc, ◌+◌, ◌*◌, ◌/◌, ◌%◌, ◌^◌, ◌<◌, ◌≡◌, Bool, true, false, [], ◌∷◌, ◌++◌, Option, none,
  some, Bytes, length, take, drop, bit_or, leb, ◌==◌, if◌then◌else◌, dec_lt, arith, append-nil,
  append_assoc, refl, length-append, take-append, drop-append,
}
use distributed_im.Common.Bits.{bit_or_top, zero-bit_or}
use distributed_im.Codec.{
  WsOpcode, text, binary, close, pong, opcode_value, WsCloseCode, close_value,
}
use distributed_im.Codec.Encode.{
  append_frame_header, key_field, length_field, big_endian, encode_frame, encode_text,
  encode_binary, encode_close, encode_pong, close_payload,
}

pub record Decoded : Type 0 where
  pub fin : Bool
  pub opcode : ℕ
  pub payload : Bytes
  pub rest : Bytes

-- `n` bytes, highest first.
unfoldable pub read_number : ℕ → ℕ → Bytes → Option (ℕ × Bytes)
read_number zero acc bs = some (acc, bs)
read_number (suc n) acc [] = none
read_number (suc n) acc (b ∷ bs) = read_number n (acc * 256 + b) bs

unfoldable pub payload_size : ℕ → Bytes → Option (ℕ × Bytes)
unfolding read_number
payload_size len7 bs =
    if len7 == 126
    then read_number 2 0 bs
    else if len7 == 127
    then read_number 8 0 bs
    else some (len7, bs)

unfoldable pub split_payload : Bool → ℕ → Option (ℕ × Bytes) → Option Decoded
split_payload fin opcode none = none
split_payload fin opcode (some (n, bs)) =
    if leb n (length bs)
    then some (record { fin = fin; opcode = opcode; payload = take n bs; rest = drop n bs })
    else none

-- Masked frames are not for a client to read.
unfoldable pub decode_frame : Bytes → Option Decoded
unfolding payload_size split_payload
decode_frame [] = none
decode_frame (b0 ∷ []) = none
decode_frame (b0 ∷ b1 ∷ bs) =
    if b1 / 128 % 2 == 1
    then none
    else split_payload (b0 / 128 % 2 == 1) (b0 % 16) (payload_size (b1 % 128) bs)

split_exact :
    (fin : Bool) (opcode : ℕ) (payload rest : Bytes)
    → split_payload fin opcode (some (length payload, payload ++ rest))
      ≡ some (record { fin = fin; opcode = opcode; payload = payload; rest = rest })
unfolding split_payload
split_exact fin opcode payload rest =
    ground (arith, length-append payload rest, take-append payload rest, drop-append payload rest)

read_big_endian_2 :
    (n : ℕ) (bs : Bytes)
    → n < 2 ^ 16
    → read_number 2 0 ((n / 256) % 256 ∷ n % 256 ∷ bs) ≡ some (n, bs)
unfolding read_number
read_big_endian_2 n bs h = ground arith

read_big_endian_8 :
    (n : ℕ) (bs : Bytes) → n < 2 ^ 64 → read_number 8 0 (big_endian 8 n ++ bs) ≡ some (n, bs)
unfolding read_number big_endian
read_big_endian_8 n bs h = ground arith

-- The length field of an unmasked header: its first byte, the bytes of the extended length, and that
-- they are read back.
record LengthField (len : ℕ) (bs : Bytes) : Type 0 where
  first : ℕ
  extended : Bytes
  shape : length_field 0 len ≡ first ∷ extended
  unmasked : first < 128
  reads : payload_size first (extended ++ bs) ≡ some (len, bs)

length_field_lem : (len : ℕ) (bs : Bytes) → len < 2 ^ 64 → LengthField len bs
unfolding length_field payload_size
length_field_lem len bs h = elim (dec_lt len 126) [
  | yes p ↦ record {
    first = len;
    extended = [];
    shape = ground (arith, zero-bit_or (len % 256));
    unmasked = omega arith;
    reads = ground arith;
  }
  | no p ↦ elim (dec_lt len 65536) [
    | yes q ↦ record {
      first = 126;
      extended = (len / 256) % 256 ∷ len % 256 ∷ [];
      shape = ground (arith, zero-bit_or 126);
      unmasked = omega arith;
      reads = read_big_endian_2 len bs (omega arith);
    }
    | no q ↦ record {
      first = 127;
      extended = big_endian 8 len;
      shape = ground (arith, zero-bit_or 127);
      unmasked = omega arith;
      reads = read_big_endian_8 len bs h;
    }
  ]
]

pub first_byte :
    (fin : Bool) (opcode : ℕ)
    → opcode < 16
    → let b0 = bit_or (if fin then 0x80 else 0x00) (opcode % 16) in
      ((b0 / 128 % 2 == 1) ≡ fin) × (b0 % 16 ≡ opcode)
first_byte true opcode h = ground (arith, bit_or_top (opcode % 16))
first_byte false opcode h = ground (arith, zero-bit_or (opcode % 16))

-- The bytes of an unmasked frame with any FIN bit, opcode and payload of up to 2 ^ 64 - 1 bytes are
-- read back by the RFC's rules as that FIN bit, opcode and payload, and what follows the frame is left.
pub decode_frame-append_frame_header :
    (fin : Bool) (opcode : ℕ) (payload rest : Bytes)
    → opcode < 16
    → length payload < 2 ^ 64
    → decode_frame
        (append_frame_header [] fin opcode false (length payload) none ++ (payload ++ rest))
      ≡ some (record { fin = fin; opcode = opcode; payload = payload; rest = rest })
unfolding decode_frame append_frame_header key_field
decode_frame-append_frame_header fin opcode payload rest ho hl =
    let f = length_field_lem (length payload) (payload ++ rest) hl in
    ground (
      arith,
      f.shape,
      f.unmasked,
      f.reads,
      append-nil f.extended,
      first_byte fin opcode ho,
      split_exact fin opcode payload rest,
    )

opcode_value-lt : (op : WsOpcode) → opcode_value op < 16
unfolding opcode_value
opcode_value-lt WsOpcode.continuation = omega arith
opcode_value-lt op = omega arith

decode_frame-encode_frame :
    (op : WsOpcode) (payload rest : Bytes)
    → length payload < 2 ^ 64
    → decode_frame (encode_frame op payload ++ rest)
      ≡ some (record { fin = true; opcode = opcode_value op; payload = payload; rest = rest })
unfolding encode_frame
decode_frame-encode_frame op payload rest h =
    rw append_assoc
      (decode_frame-append_frame_header true (opcode_value op) payload rest (opcode_value-lt op) h)

-- A text, binary or pong message of any length that a `size_t` holds goes out as one final frame with
-- its own opcode, which a client reads back with the bytes of the message as its payload.
pub decode_frame-encode :
    (message rest : Bytes)
    → length message < 2 ^ 64
    → (decode_frame (encode_text message ++ rest)
        ≡ some (record { fin = true; opcode = 1; payload = message; rest = rest }))
      × (decode_frame (encode_binary message ++ rest)
          ≡ some (record { fin = true; opcode = 2; payload = message; rest = rest }))
      × (decode_frame (encode_pong message ++ rest)
          ≡ some (record { fin = true; opcode = 10; payload = message; rest = rest }))
unfolding encode_text encode_binary encode_pong opcode_value
decode_frame-encode message rest h = (
  decode_frame-encode_frame text message rest h,
  decode_frame-encode_frame binary message rest h,
  decode_frame-encode_frame pong message rest h,
)

close_payload_lem :
    (status : WsCloseCode) (reason : Bytes)
    → read_number 2 0 (close_payload status reason) ≡ some (close_value status, reason)
unfolding close_payload read_number close_value
close_payload_lem WsCloseCode.normal reason = refl
close_payload_lem status reason = refl

-- A close frame is read back as one final close frame, whose payload starts with the status code in
-- two bytes, highest first, and goes on with the reason.
pub decode_frame-encode_close :
    (status : WsCloseCode) (reason rest : Bytes)
    → length reason + 2 < 2 ^ 64
    → (p : Bytes) × (decode_frame (encode_close status reason ++ rest)
        ≡ some (record { fin = true; opcode = 8; payload = p; rest = rest }))
      × (read_number 2 0 p ≡ some (close_value status, reason))
unfolding encode_close opcode_value
decode_frame-encode_close status reason rest h = (
  close_payload status reason,
  decode_frame-encode_frame close (close_payload status reason) rest
      (unfold close_payload in omega arith),
  close_payload_lem status reason,
)
