-- ===== src/Codec/Parse/Invariant.antt =====
-- What holds of the parser's state between calls, whatever bytes arrive.
use distributed_im.Common.{ℕ, ◌^◌, ◌≤◌, ◌<◌, ◌≡◌, refl, [], ◌∷◌, Bytes, arith}
use distributed_im.Codec.{WsFrame}
use distributed_im.Codec.Parse.{
  WsParseStage, WsFrameParseState, header_basic, header_extended_len, header_mask_key, in_payload,
  complete, Flow, waits, goes_on, parse_stage, parse_basic, parse_extended, parse_mask_key,
  parse_payload, after_mask_key, after_extended, try_parse_frame,
}

-- The counters of each stage; `complete` is never entered.
abbrev pub IsAt : ℕ → WsParseStage → ℕ → ℕ → ℕ → Type 0
IsAt max_size header_basic needed consumed len = Unit {0}
IsAt max_size header_extended_len needed consumed len = (consumed < needed) × (needed ≤ 8)
IsAt max_size header_mask_key needed consumed len = consumed ≤ 4
IsAt max_size in_payload needed consumed len =
    (consumed ≤ needed) × (needed ≡ len) × (len ≤ max_size)
IsAt max_size complete needed consumed len = ⊥

abbrev pub IsParsing : ℕ → WsFrameParseState → Type 0
IsParsing max_size st = IsAt max_size st.stage st.bytes_needed st.bytes_consumed st.payload_length

-- A stage that falls through has entered `next`.
abbrev FlowIsParsing : ℕ → WsParseStage → Flow → Type 0
FlowIsParsing max_size next (waits buffer st) = IsParsing max_size st
FlowIsParsing max_size next (goes_on buffer st) = (st.stage ≡ next) × IsParsing max_size st

module _ (max_size : ℕ) (fits : max_size < 2 ^ 64) where
  basic-IsParsing :
      (buffer : Bytes) (frame : WsFrame) (st : WsFrameParseState)
      → st.stage ≡ header_basic
      → IsParsing max_size (parse_basic buffer frame st).state
  unfolding parse_basic
  basic-IsParsing [] frame st hs = rw hs tt
  basic-IsParsing (b0 ∷ []) frame st hs = rw hs tt
  basic-IsParsing (b0 ∷ b1 ∷ rest) frame st hs = ground arith

  extended-IsParsing :
      (buffer : Bytes) (st : WsFrameParseState)
      → st.stage ≡ header_extended_len
      → IsParsing max_size st
      → FlowIsParsing max_size header_mask_key (parse_extended buffer st)
  unfolding parse_extended
  extended-IsParsing buffer st hs v = ground arith

  mask_key-IsParsing :
      (buffer : Bytes) (st : WsFrameParseState)
      → st.stage ≡ header_mask_key
      → IsParsing max_size st
      → FlowIsParsing max_size in_payload (parse_mask_key max_size buffer st)
  unfolding parse_mask_key
  mask_key-IsParsing buffer st hs v = ground arith

  payload-IsParsing :
      (buffer : Bytes) (frame : WsFrame) (st : WsFrameParseState)
      → st.stage ≡ in_payload
      → IsParsing max_size st
      → IsParsing max_size (parse_payload buffer frame st).state
  unfolding parse_payload
  payload-IsParsing buffer frame st hs v = ground arith

  after_mask_key-IsParsing :
      (frame : WsFrame) (f : Flow)
      → FlowIsParsing max_size in_payload f
      → IsParsing max_size (after_mask_key frame f).state
  unfolding after_mask_key
  after_mask_key-IsParsing frame (waits buffer st) v = v
  after_mask_key-IsParsing frame (goes_on buffer st) v = payload-IsParsing buffer frame st v.0 v.1

  after_extended-IsParsing :
      (frame : WsFrame) (f : Flow)
      → FlowIsParsing max_size header_mask_key f
      → IsParsing max_size (after_extended max_size frame f).state
  unfolding after_extended
  after_extended-IsParsing frame (waits buffer st) v = v
  after_extended-IsParsing frame (goes_on buffer st) v =
      after_mask_key-IsParsing frame (parse_mask_key max_size buffer st)
        (mask_key-IsParsing buffer st v.0 v.1)

  stage-IsParsing :
      (s : WsParseStage) (buffer : Bytes) (frame : WsFrame) (st : WsFrameParseState)
      → st.stage ≡ s
      → IsParsing max_size st
      → IsParsing max_size (parse_stage s max_size buffer frame st).state
  unfolding parse_stage
  stage-IsParsing header_basic buffer frame st hs v = basic-IsParsing buffer frame st hs
  stage-IsParsing header_extended_len buffer frame st hs v =
      after_extended-IsParsing frame (parse_extended buffer st) (extended-IsParsing buffer st hs v)
  stage-IsParsing header_mask_key buffer frame st hs v =
      after_mask_key-IsParsing frame (parse_mask_key max_size buffer st)
        (mask_key-IsParsing buffer st hs v)
  stage-IsParsing in_payload buffer frame st hs v = payload-IsParsing buffer frame st hs v
  stage-IsParsing complete buffer frame st hs v = v

  -- With a limit that a `uint64_t` holds, a call keeps the counters of the parser in order, whatever bytes are
  -- in the buffer: what is consumed stays within what the stage needs, a payload is only begun within
  -- the limit, and `COMPLETE` is never entered.
  pub try_parse_frame-IsParsing :
      (buffer : Bytes) (frame : WsFrame) (st : WsFrameParseState)
      → IsParsing max_size st
      → IsParsing max_size (try_parse_frame max_size buffer frame st).state
  unfolding try_parse_frame
  try_parse_frame-IsParsing [] frame st v = v
  try_parse_frame-IsParsing (b ∷ bs) frame st v = stage-IsParsing st.stage (b ∷ bs) frame st refl v
