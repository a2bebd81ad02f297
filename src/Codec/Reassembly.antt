-- ===== src/Codec/Reassembly.antt =====
-- gateway/src/WebSocketCodec.cpp, fragmented messages.
use distributed_im.Common.{ℕ, Bool, true, false, [], ◌++◌, Bytes, ◌==◌, if◌then◌else◌}
use distributed_im.Codec.{WsFrame, continuation, opcode_value}

unfoldable pub needs_reassembly : WsFrame → Bool → Bool
unfolding opcode_value
needs_reassembly frame in_fragmented =
    if in_fragmented
    then true
    else if frame.fin
    then (if frame.opcode == opcode_value continuation then true else false)
    else true

unfoldable pub append_to_reassembly : Bytes → WsFrame → Bytes
append_to_reassembly buf frame = buf ++ frame.payload

-- The message, and the cleared buffer.
unfoldable pub finalize_reassembly : Bytes → ℕ → Bytes × Bytes
finalize_reassembly buf original_opcode = (buf, [])
