-- ===== src/Codec/Parse/RoundTrip.antt =====
-- What the parser makes of a well-formed client frame.
use distributed_im.Common.{
  ℕ, ◌+◌, ◌/◌, ◌%◌, ◌^◌, ◌≤◌, ◌<◌, ◌≡◌, refl, sym, ap, ◌∙◌, min, Bool, true, false, [], ◌∷◌, ◌++◌,
  some, Bytes, length, All, bit_or, ◌==◌, if◌then◌else◌, arith, append_assoc, length-append,
  take-append, drop-append,
}
use distributed_im.Common.Bits.{IsByte, bit_or_top}
use distributed_im.Codec.{WsFrame, fresh_frame, apply_mask}
use distributed_im.Codec.Masking.{apply_mask_twice, length-apply_mask}
use distributed_im.Codec.Decoding.{first_byte}
use distributed_im.Codec.Encode.{append_frame_header, length_field, key_field}
use distributed_im.Codec.Parse.{
  WsParseStage, WsFrameParseState, header_basic, header_mask_key, initial_state, wait_more, enter,
  reset, parse_stage, parse_basic, try_parse_frame,
}

-- A client's frame: a masked header and the masked payload.
abbrev pub client_frame : Bool → ℕ → Bytes → Bytes → Bytes
client_frame fin opcode key content =
    append_frame_header [] fin opcode true (length content) (some key) ++ apply_mask content key

-- The header fields as the parser stores them.
abbrev pub with_header : WsFrameParseState → Bool → ℕ → ℕ → WsFrameParseState
with_header st fin opcode len = record st {
  fin = fin;
  opcode = opcode;
  masked = true;
  payload_length = len;
}

basic_short :
    (fin : Bool) (opcode len : ℕ) (rest : Bytes) (frame : WsFrame) (st : WsFrameParseState)
    → opcode < 16
    → len ≤ 125
    → let b0 = bit_or (if fin then 0x80 else 0x00) (opcode % 16) in
      parse_basic (b0 ∷ bit_or 128 (len % 256) ∷ rest) frame st
      ≡ wait_more rest frame (enter (with_header st fin opcode len) header_mask_key 4)
unfolding parse_basic
basic_short fin opcode len rest frame st ho hl =
    ground (arith, first_byte fin opcode ho, bit_or_top (len % 256))

-- Four key bytes and the whole payload at hand: the frame is complete.
mask_and_payload :
    (max_size : ℕ) (k0 k1 k2 k3 m0 m1 m2 m3 : ℕ) (body rest : Bytes) (frame : WsFrame)
    (st : WsFrameParseState)
    → st.mask_key ≡ m0 ∷ m1 ∷ m2 ∷ m3 ∷ []
    → st.bytes_consumed ≡ 0
    → st.payload_length ≡ length body
    → 0 < length body
    → length body ≤ max_size
    → length body < 2 ^ 64
    → let key = k0 ∷ k1 ∷ k2 ∷ k3 ∷ [] in
      parse_stage header_mask_key max_size (k0 ∷ k1 ∷ k2 ∷ k3 ∷ (body ++ rest)) frame st ≡ record {
        has_frame = true;
        buffer = rest;
        frame = record {
          fin = st.fin;
          opcode = st.opcode;
          is_control = st.opcode / 8 % 2 == 1;
          payload = apply_mask (frame.payload ++ body) key;
        };
        state = reset (record st { mask_key = key });
      }
unfolding parse_stage reset
mask_and_payload max_size k0 k1 k2 k3 m0 m1 m2 m3 body rest frame st hm hc hp pos small fits =
    let four : min (4 + length (body ++ rest)) 4 ≡ 4 = omega arith in
    ground (arith, length-append body rest, take-append body rest, drop-append body rest)

short_bytes :
    (fin : Bool) (opcode : ℕ) (key content rest : Bytes)
    → length content ≤ 125
    → client_frame fin opcode key content ++ rest
      ≡ bit_or (if fin then 0x80 else 0x00) (opcode % 16)
        ∷ (bit_or 128 (length content % 256) ∷ (key ++ (apply_mask content key ++ rest)))
unfolding append_frame_header length_field key_field
short_bytes fin opcode key content rest hl =
    ground (arith, append_assoc key (apply_mask content key) rest)

pub at_stage :
    {s : WsParseStage} (max_size b : ℕ) (bs : Bytes) (frame : WsFrame) (st : WsFrameParseState)
    → st.stage ≡ s
    → try_parse_frame max_size (b ∷ bs) frame st ≡ parse_stage s max_size (b ∷ bs) frame st
unfolding try_parse_frame
at_stage max_size b bs frame st h = ap (λ s. parse_stage s max_size (b ∷ bs) frame st) h

-- The key and the masked payload at hand after the header.
pub body_call :
    (max_size k0 k1 k2 k3 m0 m1 m2 m3 : ℕ) (content rest : Bytes) (st : WsFrameParseState)
    → st.mask_key ≡ m0 ∷ m1 ∷ m2 ∷ m3 ∷ []
    → All IsByte (k0 ∷ k1 ∷ k2 ∷ k3 ∷ [])
    → All IsByte content
    → 0 < length content
    → length content ≤ max_size
    → length content < 2 ^ 64
    → st.payload_length ≡ length content
    → st.bytes_consumed ≡ 0
    → let key = k0 ∷ k1 ∷ k2 ∷ k3 ∷ [] in
      parse_stage header_mask_key max_size (key ++ (apply_mask content key ++ rest)) fresh_frame st
      ≡ record {
        has_frame = true;
        buffer = rest;
        frame = record {
          fin = st.fin;
          opcode = st.opcode;
          is_control = st.opcode / 8 % 2 == 1;
          payload = content;
        };
        state = record initial_state { mask_key = key };
      }
unfolding reset
body_call max_size k0 k1 k2 k3 m0 m1 m2 m3 content rest st hm hk hb pos small fits hp hc =
    let key : Bytes = k0 ∷ k1 ∷ k2 ∷ k3 ∷ [] in
    let same = length-apply_mask content key in
    mask_and_payload max_size k0 k1 k2 k3 m0 m1 m2 m3 (apply_mask content key) rest fresh_frame st
      hm hc (hp ∙ sym same) (omega (arith, same)) (omega (arith, same)) (omega (arith, same))
    ∙ rw (apply_mask_twice content key hk hb) refl

pub short_header_call :
    (max_size : ℕ) (fin : Bool) (opcode : ℕ) (key content rest : Bytes) (frame : WsFrame)
    (st : WsFrameParseState)
    → st.stage ≡ header_basic
    → opcode < 16
    → length content ≤ 125
    → try_parse_frame max_size (client_frame fin opcode key content ++ rest) frame st
      ≡ wait_more
          (key ++ (apply_mask content key ++ rest))
          frame
          (enter (with_header st fin opcode (length content)) header_mask_key 4)
unfolding parse_stage
short_header_call max_size fin opcode key content rest frame st hs ho hl =
    rw (short_bytes fin opcode key content rest hl) (
      at_stage max_size _ _ frame st hs
      ∙ basic_short fin opcode (length content) (key ++ (apply_mask content key ++ rest)) frame st
          ho hl)

-- Whatever state the parser was left in between frames, a client frame of 1 to 125 bytes of payload is
-- read in two calls over a buffer that starts with it: the first returns false, and the second returns
-- the frame with its FIN bit, opcode and unmasked payload, leaves what follows the frame, and makes the
-- parser ready for the next frame.
pub parse_short_frame :
    (max_size : ℕ) (st : WsFrameParseState) (fin : Bool) (opcode k0 k1 k2 k3 m0 m1 m2 m3 : ℕ)
    (content rest : Bytes)
    → st.stage ≡ header_basic
    → st.mask_key ≡ m0 ∷ m1 ∷ m2 ∷ m3 ∷ []
    → opcode < 16
    → All IsByte (k0 ∷ k1 ∷ k2 ∷ k3 ∷ [])
    → All IsByte content
    → 0 < length content
    → length content ≤ 125
    → length content ≤ max_size
    → let key = k0 ∷ k1 ∷ k2 ∷ k3 ∷ [] in
      let first =
        try_parse_frame max_size (client_frame fin opcode key content ++ rest) fresh_frame st in
      (first.has_frame ≡ false)
      × (try_parse_frame max_size first.buffer fresh_frame first.state ≡ record {
        has_frame = true;
        buffer = rest;
        frame = record {
          fin = fin;
          opcode = opcode;
          is_control = opcode / 8 % 2 == 1;
          payload = content;
        };
        state = record initial_state { mask_key = key };
      })
parse_short_frame max_size st fin opcode k0 k1 k2 k3 m0 m1 m2 m3 content rest hs hm ho hk hb pos hl
      small =
    let key : Bytes = k0 ∷ k1 ∷ k2 ∷ k3 ∷ [] in
    rw (short_header_call max_size fin opcode key content rest fresh_frame st hs ho hl) (
      refl,
      at_stage max_size _ _ fresh_frame _ refl
          ∙ body_call max_size k0 k1 k2 k3 m0 m1 m2 m3 content rest
              (enter (with_header st fin opcode (length content)) header_mask_key 4) hm hk hb pos
              small (omega arith) refl refl,
    )
