-- ===== src/Codec.antt =====
-- gateway/include/WebSocketCodec.h: the opcodes, close codes and frames of RFC 6455, and the masking
-- that both directions share. Bytes are numbers below 256.
pub mod Encode
pub mod Parse
pub mod Decoding
pub mod Masking
pub mod Handshake
pub mod Reassembly
use distributed_im.Common.{
  ℕ, suc, ◌+◌, ◌%◌, Bool, true, false, List, [], ◌∷◌, Bytes, get_or, bit_xor,
}

pub data WsOpcode : Type 0 where
  continuation text binary close ping pong : WsOpcode

-- `static_cast<uint8_t>(opcode)`.
unfoldable pub opcode_value : WsOpcode → ℕ
opcode_value continuation = 0x0
opcode_value text = 0x1
opcode_value binary = 0x2
opcode_value close = 0x8
opcode_value ping = 0x9
opcode_value pong = 0xA

pub data WsCloseCode : Type 0 where
  normal going_away protocol_error invalid_data message_too_big : WsCloseCode

-- `static_cast<uint16_t>(code)`.
unfoldable pub close_value : WsCloseCode → ℕ
close_value normal = 1000
close_value going_away = 1001
close_value protocol_error = 1002
close_value invalid_data = 1003
close_value message_too_big = 1009

pub record WsFrame : Type 0 where
  pub fin : Bool
  pub opcode : ℕ
  pub is_control : Bool
  pub payload : Bytes

-- A frame as its declaration initialises it.
abbrev pub fresh_frame : WsFrame
fresh_frame = record { fin = false; opcode = 0; is_control = false; payload = [] }

-- `data[i] ^= mask_key[i % 4]`, from index `i` on.
unfoldable pub mask_from : ℕ → Bytes → Bytes → Bytes
mask_from i key [] = []
mask_from i key (b ∷ bs) = bit_xor b (get_or key (i % 4) 0) ∷ mask_from (i + 1) key bs

unfoldable pub apply_mask : Bytes → Bytes → Bytes
unfolding mask_from
apply_mask data_bytes key = mask_from 0 key data_bytes
