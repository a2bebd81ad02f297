-- ===== src/Codec/Handshake.antt =====
-- gateway/src/WebSocketCodec.cpp, the WebSocket handshake. OpenSSL's SHA1 is a parameter.
pub mod Base64
use distributed_im.Common.{
  ℕ, suc, ◌+◌, ◌*◌, ◌/◌, ◌%◌, ◌^◌, Bool, true, false, ◌||◌, List, [], ◌∷◌, ◌++◌, Option, none, some,
  Bytes, get_or, drop, bit_or, ◌==◌, if◌then◌else◌,
}
use distributed_im.Common.Text.{codes, contains, find_text, trim_right, lines}

abbrev pub base64_chars : Bytes
base64_chars = codes "ABCDEFGHIJKLMNOPQRSTUVWXYZabcdefghijklmnopqrstuvwxyz0123456789+/"

-- `chars[(n >> shift) & 0x3F]`
abbrev pub base64_char : ℕ → ℕ → ℕ
base64_char n shift = get_or base64_chars (n / 2 ^ shift % 64) 0

-- The 24-bit group, built by `|=`.
abbrev pub group : ℕ → ℕ → ℕ → ℕ
group a b c = bit_or (bit_or (a * 65536) (b * 256)) c

-- One round for each three bytes; the last may have one or two.
unfoldable pub base64_encode : Bytes → Bytes
base64_encode [] = []
base64_encode (a ∷ []) = let n = a * 65536 in base64_char n 18 ∷ base64_char n 12 ∷ b'=' ∷ b'=' ∷ []
base64_encode (a ∷ b ∷ []) =
    let n = bit_or (a * 65536) (b * 256) in
    base64_char n 18 ∷ base64_char n 12 ∷ base64_char n 6 ∷ b'=' ∷ []
base64_encode (a ∷ b ∷ c ∷ rest) =
    let n = group a b c in
    base64_char n 18 ∷ base64_char n 12 ∷ base64_char n 6 ∷ base64_char n 0 ∷ base64_encode rest

unfoldable pub is_upgrade_request : Bytes → Bool
unfolding contains
is_upgrade_request http_request =
    contains (codes "Upgrade: websocket") http_request
    || contains (codes "upgrade: websocket") http_request

unfoldable pub is_line_end : ℕ → Bool
is_line_end c = c == 13 || c == 10

-- The value behind the first ": ", without line ends; `none` keeps the key found before.
unfoldable pub key_of_line : Bytes → Bytes → Bytes
unfolding contains find_text trim_right is_line_end
key_of_line key line =
    if contains (codes "Sec-WebSocket-Key:") line || contains (codes "Sec-WebSocket-Key: ") line
    then elim (find_text (codes ": ") line) [
      | none ↦ key
      | some pos ↦ trim_right is_line_end (drop (pos + 2) line)
    ]
    else key

-- The loop over the lines: the last key header counts.
unfoldable pub extract_key : Bytes → List Bytes → Bytes
unfolding key_of_line
extract_key key [] = key
extract_key key (line ∷ rest) = extract_key (key_of_line key line) rest

abbrev pub magic : Bytes
magic = codes "258EAFA5-E914-47DA-95CA-C5AB0DC85B11"

abbrev crlf : Bytes
crlf = 13 ∷ 10 ∷ []

module _ (sha1 : Bytes → Bytes) where
  unfoldable pub accept_value : Bytes → Bytes
  unfolding base64_encode
  accept_value key = base64_encode (sha1 (key ++ magic))

  unfoldable pub generate_handshake_response : Bytes → Bytes
  unfolding extract_key lines accept_value
  generate_handshake_response http_request =
      codes "HTTP/1.1 101 Switching Protocols"
      ++ (crlf
          ++ (codes "Upgrade: websocket"
              ++ (crlf
                  ++ (codes "Connection: Upgrade"
                      ++ (crlf
                          ++ (codes "Sec-WebSocket-Accept: "
                              ++ (accept_value (extract_key [] (lines http_request))
                                  ++ (crlf ++ crlf))))))))
