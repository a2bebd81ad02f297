-- ===== src/Codec/Parse/Consumes.antt =====
-- `tryParseFrame` takes at least one byte for every frame that it returns.
use distributed_im.Common.{
  ℕ, ◌≤◌, ◌<◌, ◌≡◌, min, [], ◌∷◌, Bytes, length, length-drop, true, false, arith,
}
use distributed_im.Codec.{WsFrame}
use distributed_im.Codec.Parse.{
  WsParseStage, header_basic, header_extended_len, header_mask_key, in_payload, complete,
  WsFrameParseState, sub64, parse_basic, Flow, waits, goes_on, parse_extended, parse_mask_key,
  parse_payload, after_mask_key, after_extended, parse_stage, try_parse_frame,
}

-- A stage that falls through has not made the buffer longer.
abbrev Shrinks : ℕ → Flow → Type 0
Shrinks n (waits buffer st) = Unit {0}
Shrinks n (goes_on buffer st) = length buffer ≤ n

parse_basic-waits :
    (buffer : Bytes) (frame : WsFrame) (st : WsFrameParseState)
    → (parse_basic buffer frame st).has_frame ≡ false
unfolding parse_basic
parse_basic-waits [] frame st = ground arith
parse_basic-waits (b0 ∷ []) frame st = ground arith
parse_basic-waits (b0 ∷ b1 ∷ rest) frame st = ground arith

parse_extended-Shrinks :
    (buffer : Bytes) (st : WsFrameParseState) → Shrinks (length buffer) (parse_extended buffer st)
unfolding parse_extended
parse_extended-Shrinks buffer st =
    let avail = min (length buffer) (sub64 st.bytes_needed st.bytes_consumed) in
    ground (arith, length-drop avail buffer)

parse_mask_key-Shrinks :
    (max_size : ℕ) (buffer : Bytes) (st : WsFrameParseState)
    → Shrinks (length buffer) (parse_mask_key max_size buffer st)
unfolding parse_mask_key
parse_mask_key-Shrinks max_size buffer st =
    let avail = min (length buffer) (sub64 4 st.bytes_consumed) in
    ground (arith, length-drop avail buffer)

parse_payload-shorter :
    (buffer : Bytes) (frame : WsFrame) (st : WsFrameParseState)
    → (parse_payload buffer frame st).has_frame ≡ true
    → length (parse_payload buffer frame st).buffer < length buffer
unfolding parse_payload
parse_payload-shorter buffer frame st e =
    let avail = min (length buffer) (sub64 st.bytes_needed st.bytes_consumed) in
    ground (arith, length-drop avail buffer)

after_mask_key-shorter :
    (n : ℕ) (frame : WsFrame) (flow : Flow)
    → Shrinks n flow
    → (after_mask_key frame flow).has_frame ≡ true
    → length (after_mask_key frame flow).buffer < n
unfolding after_mask_key
after_mask_key-shorter n frame (waits buffer st) h e = absurd (cc)
after_mask_key-shorter n frame (goes_on buffer st) h e =
    omega (arith, parse_payload-shorter buffer frame st e)

after_extended-shorter :
    (max_size n : ℕ) (frame : WsFrame) (flow : Flow)
    → Shrinks n flow
    → (after_extended max_size frame flow).has_frame ≡ true
    → length (after_extended max_size frame flow).buffer < n
unfolding after_extended
after_extended-shorter max_size n frame (waits buffer st) h e = absurd (cc)
after_extended-shorter max_size n frame (goes_on buffer st) h e =
    let flow = parse_mask_key max_size buffer st in
    omega (
      arith,
      after_mask_key-shorter (length buffer) frame flow (parse_mask_key-Shrinks max_size buffer st)
          e,
    )

parse_stage-shorter :
    (stage : WsParseStage) (max_size : ℕ) (buffer : Bytes) (frame : WsFrame)
    (st : WsFrameParseState)
    → (parse_stage stage max_size buffer frame st).has_frame ≡ true
    → length (parse_stage stage max_size buffer frame st).buffer < length buffer
unfolding parse_stage
parse_stage-shorter header_basic max_size buffer frame st e =
    absurd (cc (e, parse_basic-waits buffer frame st))
parse_stage-shorter header_extended_len max_size buffer frame st e =
    after_extended-shorter max_size (length buffer) frame (parse_extended buffer st)
      (parse_extended-Shrinks buffer st) e
parse_stage-shorter header_mask_key max_size buffer frame st e =
    after_mask_key-shorter (length buffer) frame (parse_mask_key max_size buffer st)
      (parse_mask_key-Shrinks max_size buffer st) e
parse_stage-shorter in_payload max_size buffer frame st e = parse_payload-shorter buffer frame st e
parse_stage-shorter complete max_size buffer frame st e = absurd (cc)

pub try_parse_frame-shorter :
    (max_size : ℕ) (buffer : Bytes) (frame : WsFrame) (st : WsFrameParseState)
    → (try_parse_frame max_size buffer frame st).has_frame ≡ true
    → length (try_parse_frame max_size buffer frame st).buffer < length buffer
unfolding try_parse_frame
try_parse_frame-shorter max_size [] frame st e = absurd (cc)
try_parse_frame-shorter max_size (b ∷ bs) frame st e =
    parse_stage-shorter st.stage max_size (b ∷ bs) frame st e
