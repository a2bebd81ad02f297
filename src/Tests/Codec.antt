-- ===== src/Tests/Codec.antt =====
-- The WebSocket codec on concrete frames.
use distributed_im.Common.{
  ℕ, zero, suc, ◌≡◌, refl, ap, true, false, [], ◌∷◌, ◌++◌, none, some, Bytes, length, All, arith,
}
use distributed_im.Common.Bits.{IsByte}
use distributed_im.Common.Text.{codes}
use distributed_im.Codec.{fresh_frame, normal, close_value}
use distributed_im.Codec.Encode.{append_frame_header, encode_text, encode_close}
use distributed_im.Codec.Decoding.{
  decode_frame, read_number, decode_frame-append_frame_header, decode_frame-encode,
  decode_frame-encode_close,
}
use distributed_im.Codec.Handshake.{base64_encode}
use distributed_im.Codec.Handshake.Base64.{base64_decode, base64_decode-base64_encode}
use distributed_im.Codec.Parse.{initial_state, try_parse_frame}
use distributed_im.Codec.Parse.RoundTrip.{client_frame, parse_short_frame}
use distributed_im.Codec.Parse.Extended.{parse_long_frame}
use distributed_im.Codec.Parse.Wedged.{medium_frame_wedges, empty_frame_wedges}
use distributed_im.Codec.Parse.Invariant.{IsParsing, try_parse_frame-IsParsing}

-- `n` zero bytes.
zeros : ℕ → Bytes
zeros zero = []
zeros (suc n) = 0 ∷ zeros n

length-zeros : (n : ℕ) → length (zeros n) ≡ n
unfolding zeros
length-zeros zero = refl
length-zeros (suc n) = ap suc (length-zeros n)

zeros-IsByte : (n : ℕ) → All IsByte (zeros n)
unfolding zeros
zeros-IsByte zero = tt
zeros-IsByte (suc n) = (omega arith, zeros-IsByte n)

abbrev test_key : Bytes
test_key = 0x37 ∷ 0xfa ∷ 0x21 ∷ 0x3d ∷ []

-- The masked "Hello" of RFC 6455, section 5.7.
hello_frame :
    client_frame true 1 test_key (codes "Hello")
    ≡ 0x81 ∷ 0x85 ∷ 0x37 ∷ 0xfa ∷ 0x21 ∷ 0x3d ∷ 0x7f ∷ 0x9f ∷ 0x4d ∷ 0x51 ∷ 0x58 ∷ []
unfolding append_frame_header distributed_im.Codec.apply_mask
hello_frame = refl

base64_run : base64_encode (codes "any carnal pleas") ≡ codes "YW55IGNhcm5hbCBwbGVhcw=="
unfolding base64_encode
base64_run = refl

parse_short_frame_example :
    (try_parse_frame 65536
      (client_frame true 1 test_key (codes "Hello") ++ (7 ∷ []))
      fresh_frame
      initial_state).has_frame
    ≡ false
parse_short_frame_example =
    (parse_short_frame 65536 initial_state true 1 0x37 0xfa 0x21 0x3d 0 0 0 0 (codes "Hello")
      (7 ∷ []) refl refl (omega arith) (omega arith) (omega arith) (omega arith) (omega arith)
      (omega arith)).0

parse_long_frame_example :
    (try_parse_frame 100000
      (client_frame true 2 test_key (zeros 70000) ++ [])
      fresh_frame
      initial_state).has_frame
    ≡ false
parse_long_frame_example =
    (parse_long_frame 100000 initial_state true 2 0x37 0xfa 0x21 0x3d 0 0 0 0 (zeros 70000) [] refl
      refl (omega arith) (omega arith) (zeros-IsByte 70000) (omega (arith, length-zeros 70000))
      (omega (arith, length-zeros 70000)) (omega (arith, length-zeros 70000))).0

medium_frame_wedges_example :
    (try_parse_frame 65536
      (client_frame true 1 test_key (zeros 200) ++ [])
      fresh_frame
      initial_state).has_frame
    ≡ false
medium_frame_wedges_example =
    (medium_frame_wedges 65536 initial_state true 1 0x37 0xfa 0x21 0x3d (zeros 200) [] (1 ∷ 2 ∷ [])
      fresh_frame refl (omega arith) (omega (arith, length-zeros 200))
      (omega (arith, length-zeros 200)) (omega (arith, length-zeros 200)) (omega arith)).0

empty_frame_wedges_example :
    (try_parse_frame 65536
      (client_frame true 9 test_key [] ++ [])
      fresh_frame
      initial_state).has_frame
    ≡ false
empty_frame_wedges_example =
    (empty_frame_wedges 65536 initial_state true 9 0x37 0xfa 0x21 0x3d [] (1 ∷ 2 ∷ []) fresh_frame
      refl (omega arith)).0

try_parse_frame-IsParsing_example :
    IsParsing 65536
      (try_parse_frame 65536 (0x81 ∷ 0x85 ∷ 0x37 ∷ []) fresh_frame initial_state).state
try_parse_frame-IsParsing_example =
    try_parse_frame-IsParsing 65536 (omega arith) (0x81 ∷ 0x85 ∷ 0x37 ∷ []) fresh_frame
      initial_state tt

decode_frame-append_frame_header_example :
    decode_frame (append_frame_header [] false 2 false 3 none ++ (codes "abc" ++ (9 ∷ [])))
    ≡ some (record { fin = false; opcode = 2; payload = codes "abc"; rest = 9 ∷ [] })
decode_frame-append_frame_header_example =
    decode_frame-append_frame_header false 2 (codes "abc") (9 ∷ []) (omega arith) (omega arith)

decode_frame-encode_example :
    decode_frame (encode_text (codes "abc") ++ (9 ∷ []))
    ≡ some (record { fin = true; opcode = 1; payload = codes "abc"; rest = 9 ∷ [] })
decode_frame-encode_example = (decode_frame-encode (codes "abc") (9 ∷ []) (omega arith)).0

decode_frame-encode_close_example :
    (p : Bytes) × (decode_frame (encode_close normal (codes "bye") ++ [])
      ≡ some (record { fin = true; opcode = 8; payload = p; rest = [] }))
    × (read_number 2 0 p ≡ some (close_value normal, codes "bye"))
decode_frame-encode_close_example = decode_frame-encode_close normal (codes "bye") [] (omega arith)

base64_decode-base64_encode_example :
    base64_decode (base64_encode (1 ∷ 255 ∷ 3 ∷ 4 ∷ [])) ≡ 1 ∷ 255 ∷ 3 ∷ 4 ∷ []
base64_decode-base64_encode_example =
    base64_decode-base64_encode (1 ∷ 255 ∷ 3 ∷ 4 ∷ []) (omega arith)
