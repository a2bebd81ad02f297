-- ===== src/Codec/Parse/Wedged.antt =====
-- States in which the parser never returns another frame, and the frames that lead there.
use distributed_im.Common.{
  ℕ, ◌+◌, ◌*◌, ◌/◌, ◌%◌, ◌≤◌, ◌<◌, ◌≡◌, refl, ◌∙◌, ◌⊎◌, inl, inr, Bool, false, [], ◌∷◌, ◌++◌, Bytes,
  length, bit_or, if◌then◌else◌, arith, append_assoc,
}
use distributed_im.Codec.{WsFrame, fresh_frame, apply_mask}
use distributed_im.Codec.Encode.{append_frame_header, length_field, key_field}
use distributed_im.Codec.Parse.Lengths.{read_length_2}
use distributed_im.Codec.Parse.RoundTrip.{client_frame, with_header, at_stage, short_header_call}
use distributed_im.Codec.Parse.Extended.{extended_header_call, extended_length_call}
use distributed_im.Codec.Parse.{
  WsFrameParseState, header_basic, header_extended_len, header_mask_key, in_payload, wait_more,
  enter, read_length, parse_stage, write_key, try_parse_frame,
}

-- The mask key is complete and was refused, or an empty payload is waited for.
abbrev pub IsWedged : WsFrameParseState → Type 0
IsWedged st =
    (st.stage ≡ header_mask_key) × (st.bytes_consumed ≡ 4)
    ⊎ (st.stage ≡ in_payload) × (st.bytes_needed ≡ 0) × (st.bytes_consumed ≡ 0)

pub IsWedged-waits :
    (max_size : ℕ) (more : Bytes) (frame : WsFrame) (st : WsFrameParseState)
    → IsWedged st
    → try_parse_frame max_size more frame st ≡ wait_more more frame st
unfolding try_parse_frame
IsWedged-waits max_size [] frame st w = refl
IsWedged-waits max_size (b ∷ bs) frame st (inl (hs, hc)) =
    at_stage max_size b bs frame st hs ∙ unfold parse_stage in ground arith
IsWedged-waits max_size (b ∷ bs) frame st (inr (hs, hn, hc)) =
    at_stage max_size b bs frame st hs ∙ unfold parse_stage in ground arith

-- A key behind a length over the limit.
oversize_call :
    (max_size k0 k1 k2 k3 : ℕ) (tail : Bytes) (frame : WsFrame) (st : WsFrameParseState)
    → st.bytes_consumed ≡ 0
    → max_size < st.payload_length
    → parse_stage header_mask_key max_size (k0 ∷ k1 ∷ k2 ∷ k3 ∷ tail) frame st
      ≡ wait_more tail frame (record st {
        mask_key = write_key st.mask_key 0 (k0 ∷ k1 ∷ k2 ∷ k3 ∷ []);
        bytes_consumed = 4;
      })
unfolding parse_stage
oversize_call max_size k0 k1 k2 k3 tail frame st hc big = ground arith

-- A key behind a length of 0.
empty_call :
    (max_size k0 k1 k2 k3 : ℕ) (tail : Bytes) (frame : WsFrame) (st : WsFrameParseState)
    → st.bytes_consumed ≡ 0
    → st.payload_length ≡ 0
    → parse_stage header_mask_key max_size (k0 ∷ k1 ∷ k2 ∷ k3 ∷ tail) frame st
      ≡ wait_more tail frame (
          enter
            (record st { mask_key = write_key st.mask_key 0 (k0 ∷ k1 ∷ k2 ∷ k3 ∷ []) })
            in_payload
            0)
unfolding parse_stage
empty_call max_size k0 k1 k2 k3 tail frame st hc hp = ground arith

medium_bytes :
    (fin : Bool) (opcode : ℕ) (key content rest : Bytes)
    → 125 < length content
    → length content ≤ 65535
    → client_frame fin opcode key content ++ rest
      ≡ bit_or (if fin then 0x80 else 0x00) (opcode % 16)
        ∷ ((128 + 126)
            ∷ (((length content / 256) % 256 ∷ length content % 256 ∷ [])
                ++ (key ++ (apply_mask content key ++ rest))))
unfolding append_frame_header length_field key_field
medium_bytes fin opcode key content rest lo hi =
    ground (arith, append_assoc key (apply_mask content key) rest)

-- The bug of the 16-bit length: the marker 126 stays in the number. A client frame of 126 to 65535
-- bytes of payload, although within the limit, is taken for one of at least 126 * 65536 bytes; with a
-- limit up to that (the default is 65536), two calls over a buffer that starts with it return no frame,
-- and they leave a state in which no call over any input `more` returns a frame or takes a byte.
pub medium_frame_wedges :
    (max_size : ℕ) (st : WsFrameParseState) (fin : Bool) (opcode k0 k1 k2 k3 : ℕ)
    (content rest more : Bytes) (frame : WsFrame)
    → st.stage ≡ header_basic
    → opcode < 16
    → 125 < length content
    → length content ≤ 65535
    → length content ≤ max_size
    → max_size ≤ 126 * 65536
    → let key = k0 ∷ k1 ∷ k2 ∷ k3 ∷ [] in
      let first =
        try_parse_frame max_size (client_frame fin opcode key content ++ rest) fresh_frame st in
      let second = try_parse_frame max_size first.buffer fresh_frame first.state in
      (first.has_frame ≡ false)
      × (second.has_frame ≡ false)
      × (try_parse_frame max_size more frame second.state ≡ wait_more more frame second.state)
medium_frame_wedges max_size st fin opcode k0 k1 k2 k3 content rest more frame hs ho lo hi small
      limit =
    let key : Bytes = k0 ∷ k1 ∷ k2 ∷ k3 ∷ [] in
    let n = length content in
    let extended : Bytes = (n / 256) % 256 ∷ n % 256 ∷ [] in
    let tail = key ++ (apply_mask content key ++ rest) in
    let st1 = enter (with_header st fin opcode 126) header_extended_len 2 in
    let st2 = enter (record st1 { payload_length = read_length 126 extended }) header_mask_key 4 in
    rw (medium_bytes fin opcode key content rest lo hi) (
      rw
        (extended_header_call max_size 126 2 fin opcode (extended ++ tail) fresh_frame st hs ho
          (inl (refl, refl)))
        (rw
          (extended_length_call max_size extended tail fresh_frame st1 refl refl refl (omega arith)
              (omega arith)
            ∙ oversize_call max_size k0 k1 k2 k3 (apply_mask content key ++ rest) fresh_frame st2
                refl (omega (arith, read_length_2 n (omega arith))))
          (refl, refl, IsWedged-waits max_size more frame _ (inl (refl, refl)))))

-- The bug of the empty payload: two calls over a buffer that starts with a client frame without payload
-- return no frame, and leave a state in which no call over any input `more` returns a frame or takes a
-- byte.
pub empty_frame_wedges :
    (max_size : ℕ) (st : WsFrameParseState) (fin : Bool) (opcode k0 k1 k2 k3 : ℕ)
    (rest more : Bytes) (frame : WsFrame)
    → st.stage ≡ header_basic
    → opcode < 16
    → let key = k0 ∷ k1 ∷ k2 ∷ k3 ∷ [] in
      let first =
        try_parse_frame max_size (client_frame fin opcode key [] ++ rest) fresh_frame st in
      let second = try_parse_frame max_size first.buffer fresh_frame first.state in
      (first.has_frame ≡ false)
      × (second.has_frame ≡ false)
      × (try_parse_frame max_size more frame second.state ≡ wait_more more frame second.state)
empty_frame_wedges max_size st fin opcode k0 k1 k2 k3 rest more frame hs ho =
    let key : Bytes = k0 ∷ k1 ∷ k2 ∷ k3 ∷ [] in
    let st1 = enter (with_header st fin opcode 0) header_mask_key 4 in
    rw (short_header_call max_size fin opcode key [] rest fresh_frame st hs ho (omega arith)) (
      rw
        (at_stage max_size _ _ fresh_frame st1 refl
          ∙ empty_call max_size k0 k1 k2 k3 (apply_mask [] key ++ rest) fresh_frame st1 refl refl)
        (refl, refl, IsWedged-waits max_size more frame _ (inr (refl, refl, refl))))
