-- ===== src/Codec/Parse/Extended.antt =====
-- Client frames with an extended length: 64-bit ones are read, 16-bit ones are not.
use distributed_im.Common.{
  ℕ, ◌+◌, ◌/◌, ◌%◌, ◌^◌, ◌≤◌, ◌<◌, ◌≡◌, refl, sym, ap, ◌∙◌, ◌⊎◌, inr, Bool, true, false, [], ◌∷◌,
  ◌++◌, Bytes, length, All, bit_or, ◌==◌, if◌then◌else◌, arith, append_assoc, length-append,
  take-append, drop-append,
}
use distributed_im.Common.Bits.{IsByte}
use distributed_im.Codec.{WsFrame, fresh_frame, apply_mask}
use distributed_im.Codec.Decoding.{first_byte}
use distributed_im.Codec.Encode.{append_frame_header, length_field, key_field, big_endian}
use distributed_im.Codec.Parse.Lengths.{read_length_8}
use distributed_im.Codec.Parse.RoundTrip.{client_frame, with_header, at_stage, body_call}
use distributed_im.Codec.Parse.{
  WsFrameParseState, header_basic, header_extended_len, header_mask_key, initial_state, wait_more,
  goes_on, enter, read_length, parse_stage, parse_basic, parse_extended, after_extended,
  try_parse_frame,
}

-- The two header bytes, whose second holds the marker 126 or 127 with the mask bit.
pub extended_header_call :
    (max_size marker needed : ℕ) (fin : Bool) (opcode : ℕ) (tail : Bytes) (frame : WsFrame)
    (st : WsFrameParseState)
    → st.stage ≡ header_basic
    → opcode < 16
    → (marker ≡ 126) × (needed ≡ 2) ⊎ (marker ≡ 127) × (needed ≡ 8)
    → try_parse_frame max_size
        (bit_or (if fin then 0x80 else 0x00) (opcode % 16) ∷ ((128 + marker) ∷ tail))
        frame
        st
      ≡ wait_more tail frame (enter (with_header st fin opcode marker) header_extended_len needed)
unfolding parse_stage parse_basic
extended_header_call max_size marker needed fin opcode tail frame st hs ho hm =
    at_stage max_size _ _ frame st hs ∙ ground (arith, first_byte fin opcode ho)

extended_flow :
    (extended tail : Bytes) (st : WsFrameParseState)
    → st.bytes_needed ≡ length extended
    → st.bytes_consumed ≡ 0
    → 0 < length extended
    → length extended < 2 ^ 64
    → parse_extended (extended ++ tail) st
      ≡ goes_on tail (
          enter
            (record st { payload_length = read_length st.payload_length extended })
            header_mask_key
            4)
unfolding parse_extended
extended_flow extended tail st hn hc pos fits =
    ground
      (arith, length-append extended tail, take-append extended tail, drop-append extended tail)

-- All bytes of the extended length at hand: the call goes on with the mask key.
pub extended_length_call :
    (max_size : ℕ) (extended tail : Bytes) (frame : WsFrame) (st : WsFrameParseState)
    → st.stage ≡ header_extended_len
    → st.bytes_needed ≡ length extended
    → st.bytes_consumed ≡ 0
    → 0 < length extended
    → length extended < 2 ^ 64
    → try_parse_frame max_size (extended ++ tail) frame st
      ≡ parse_stage header_mask_key max_size tail frame (
          enter
            (record st { payload_length = read_length st.payload_length extended })
            header_mask_key
            4)
unfolding parse_stage
extended_length_call max_size [] tail frame st hs hn hc pos fits = absurd (omega arith)
extended_length_call max_size (b ∷ bs) tail frame st hs hn hc pos fits =
    at_stage max_size b (bs ++ tail) frame st hs
    ∙ ap (after_extended max_size frame) (extended_flow (b ∷ bs) tail st hn hc pos fits)

long_bytes :
    (fin : Bool) (opcode : ℕ) (key content rest : Bytes)
    → 65535 < length content
    → client_frame fin opcode key content ++ rest
      ≡ bit_or (if fin then 0x80 else 0x00) (opcode % 16)
        ∷ ((128 + 127)
            ∷ (big_endian 8 (length content) ++ (key ++ (apply_mask content key ++ rest))))
unfolding append_frame_header length_field key_field
long_bytes fin opcode key content rest hl = ground (
  arith,
  append_assoc (big_endian 8 (length content)) key (apply_mask content key ++ rest),
  append_assoc key (apply_mask content key) rest,
  append_assoc (big_endian 8 (length content) ++ key) (apply_mask content key) rest,
)

long_length :
    (n : ℕ) → n < 2 ^ 64 → (length (big_endian 8 n) ≡ 8) × (read_length 127 (big_endian 8 n) ≡ n)
long_length n h = (unfold big_endian in refl, read_length_8 n h)

-- Whatever state the parser was left in between frames, a client frame with a 64-bit length (a payload of
-- at least 65536 bytes, within the limit) is read in two calls over a buffer that starts with it, as
-- one of up to 125 bytes is: false first, and then the frame with its FIN bit, opcode and payload.
pub parse_long_frame :
    (max_size : ℕ) (st : WsFrameParseState) (fin : Bool) (opcode k0 k1 k2 k3 m0 m1 m2 m3 : ℕ)
    (content rest : Bytes)
    → st.stage ≡ header_basic
    → st.mask_key ≡ m0 ∷ m1 ∷ m2 ∷ m3 ∷ []
    → opcode < 16
    → All IsByte (k0 ∷ k1 ∷ k2 ∷ k3 ∷ [])
    → All IsByte content
    → 65535 < length content
    → length content < 2 ^ 64
    → length content ≤ max_size
    → let key = k0 ∷ k1 ∷ k2 ∷ k3 ∷ [] in
      let first =
        try_parse_frame max_size (client_frame fin opcode key content ++ rest) fresh_frame st in
      (first.has_frame ≡ false)
      × (try_parse_frame max_size first.buffer fresh_frame first.state ≡ record {
        has_frame = true;
        buffer = rest;
        frame = record {
          fin = fin;
          opcode = opcode;
          is_control = opcode / 8 % 2 == 1;
          payload = content;
        };
        state = record initial_state { mask_key = key };
      })
parse_long_frame max_size st fin opcode k0 k1 k2 k3 m0 m1 m2 m3 content rest hs hm ho hk hb pos fits
      small =
    let key : Bytes = k0 ∷ k1 ∷ k2 ∷ k3 ∷ [] in
    let n = length content in
    let (eight, number) = long_length n fits in
    let st1 = enter (with_header st fin opcode 127) header_extended_len 8 in
    let tail = key ++ (apply_mask content key ++ rest) in
    rw (long_bytes fin opcode key content rest pos) (
      rw
        (extended_header_call max_size 127 8 fin opcode (big_endian 8 n ++ tail) fresh_frame st hs
          ho (inr (refl, refl)))
        (
          refl,
          extended_length_call max_size (big_endian 8 n) tail fresh_frame st1 refl (sym eight) refl
                (omega (arith, eight)) (omega (arith, eight))
              ∙ body_call max_size k0 k1 k2 k3 m0 m1 m2 m3 content rest
                  (enter (record st1 { payload_length = read_length 127 (big_endian 8 n) })
                    header_mask_key 4)
                  hm hk hb (omega arith) small fits number refl,
        ))
