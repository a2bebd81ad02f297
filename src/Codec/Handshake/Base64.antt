-- ===== src/Codec/Handshake/Base64.antt =====
-- `base64Encode` against a decoder of RFC 4648.
use distributed_im.Common.{
  ℕ, suc, ◌+◌, ◌*◌, ◌/◌, ◌%◌, ◌^◌, ◌<◌, ◌≡◌, refl, ◌∙◌, not, true, [], ◌∷◌, Bytes, get_or, All,
  bit_or, ◌==◌, ==_iff, if◌then◌else◌, arith,
}
use distributed_im.Common.Bits.{IsByte, holds_below, holds_below_lem, bit_or_shifted, bit_or_byte}
use distributed_im.Codec.Handshake.{base64_chars, base64_char, group, base64_encode}

-- The place of a character in the alphabet.
unfoldable index_of : ℕ → Bytes → ℕ
index_of c [] = 0
index_of c (x ∷ xs) = let later = index_of c xs in if x == c then 0 else suc later

unfoldable base64_value : ℕ → ℕ
unfolding index_of
base64_value c = index_of c base64_chars

-- Four characters for one to three bytes.
pub base64_decode : Bytes → Bytes
base64_decode (p ∷ q ∷ r ∷ s ∷ rest) =
    let n =
      base64_value p * 262144 + base64_value q * 4096 + base64_value r * 64 + base64_value s in
    let later = base64_decode rest in
    if r == b'='
    then (base64_value p * 4 + base64_value q / 16) ∷ []
    else if s == b'='
    then (base64_value p * 4 + base64_value q / 16)
      ∷ ((base64_value q % 16 * 16 + base64_value r / 4) ∷ [])
    else (n / 65536) ∷ (n / 256 % 256) ∷ (n % 256) ∷ later
base64_decode _ = []

value_table : holds_below (λ i. base64_value (get_or base64_chars i 0) == i) 64 ≡ true
unfolding holds_below base64_value
value_table = refl

value_lem : (i : ℕ) → i < 64 → base64_value (get_or base64_chars i 0) ≡ i
value_lem i h = (==_iff _ i).0 (holds_below_lem _ 64 i h value_table)

no_padding_table : holds_below (λ i. not (get_or base64_chars i 0 == b'=')) 64 ≡ true
unfolding holds_below
no_padding_table = refl

no_padding : (i : ℕ) → i < 64 → not (get_or base64_chars i 0 == b'=') ≡ true
no_padding i h = holds_below_lem _ 64 i h no_padding_table

pair_lem : (a b : ℕ) → IsByte b → bit_or (a * 65536) (b * 256) ≡ (a * 256 + b) * 256
pair_lem a b hb = bit_or_shifted 16 a (a * 65536) (b * 256) refl (omega arith) ∙ omega arith

group_lem : (a b c : ℕ) → IsByte b → IsByte c → group a b c ≡ a * 65536 + b * 256 + c
group_lem a b c hb hc = rw (pair_lem a b hb) (bit_or_byte (a * 256 + b) c hc ∙ omega arith)

-- The value of the character for a group of six bits.
char_value : (n shift : ℕ) → base64_value (base64_char n shift) ≡ n / 2 ^ shift % 64
char_value n shift = value_lem (n / 2 ^ shift % 64) (omega arith)

-- Decoding by RFC 4648 gives back the bytes that `base64Encode` was given, however many.
pub base64_decode-base64_encode :
    (bs : Bytes) → All IsByte bs → base64_decode (base64_encode bs) ≡ bs
unfolding base64_encode base64_decode
base64_decode-base64_encode [] h = refl
base64_decode-base64_encode (a ∷ []) h =
    ground (arith, char_value (a * 65536) 18, char_value (a * 65536) 12)
base64_decode-base64_encode (a ∷ b ∷ []) h = rw (pair_lem a b h.1.0) (
    ground (
      arith,
      char_value ((a * 256 + b) * 256) 18,
      char_value ((a * 256 + b) * 256) 12,
      char_value ((a * 256 + b) * 256) 6,
      no_padding ((a * 256 + b) * 256 / 2 ^ 6 % 64) (omega arith),
    ))
base64_decode-base64_encode (a ∷ b ∷ c ∷ rest) h = rw (group_lem a b c h.1.0 h.1.1.0) (
    ground (
      arith,
      char_value (a * 65536 + b * 256 + c) 18,
      char_value (a * 65536 + b * 256 + c) 12,
      char_value (a * 65536 + b * 256 + c) 6,
      char_value (a * 65536 + b * 256 + c) 0,
      no_padding ((a * 65536 + b * 256 + c) / 2 ^ 6 % 64) (omega arith),
      no_padding ((a * 65536 + b * 256 + c) / 2 ^ 0 % 64) (omega arith),
      base64_decode-base64_encode rest h.1.1.1,
    ))
