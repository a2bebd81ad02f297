-- ===== src/Codec/Parse/Lengths.antt =====
-- What the parser makes of the extended length bytes: a number in base 256 on top of the value that
-- `payload_length` starts from, modulo 2 ^ 64.
use distributed_im.Common.{
  ℕ, ◌+◌, ◌*◌, ◌/◌, ◌%◌, ◌^◌, ◌<◌, ◌≡◌, ◌∙◌, [], ◌∷◌, Bytes, All, bit_or, arith,
}
use distributed_im.Common.Bits.{IsByte, bit_or_byte}
use distributed_im.Codec.Encode.{big_endian}
use distributed_im.Codec.Parse.{read_length}

abbrev horner : ℕ → Bytes → ℕ
horner x [] = x
horner x (b ∷ bs) = horner (x * 256 + b) bs

horner_mod :
    (x y : ℕ) (bs : Bytes) → x % 2 ^ 64 ≡ y % 2 ^ 64 → horner x bs % 2 ^ 64 ≡ horner y bs % 2 ^ 64
horner_mod x y [] h = h
horner_mod x y (b ∷ bs) h = horner_mod (x * 256 + b) (y * 256 + b) bs (omega arith)

shift_in : (x b : ℕ) → IsByte b → bit_or (x * 256 % 2 ^ 64) b ≡ (x * 256 + b) % 2 ^ 64
shift_in x b h =
    let shifted : x * 256 % 2 ^ 64 ≡ x % 2 ^ 56 * 256 = omega arith in
    rw shifted (omega (arith, bit_or_byte (x % 2 ^ 56) b h))

read_length-horner :
    (x : ℕ) (bs : Bytes) → All IsByte bs → x < 2 ^ 64 → read_length x bs ≡ horner x bs % 2 ^ 64
unfolding read_length
read_length-horner x [] h hx = omega arith
read_length-horner x (b ∷ bs) h hx = rw (shift_in x b h.0) (
    read_length-horner ((x * 256 + b) % 2 ^ 64) bs h.1 (omega arith)
    ∙ horner_mod ((x * 256 + b) % 2 ^ 64) (x * 256 + b) bs (omega arith))

-- The marker 127 is shifted out by eight bytes.
pub read_length_8 : (n : ℕ) → n < 2 ^ 64 → read_length 127 (big_endian 8 n) ≡ n
unfolding big_endian
read_length_8 n h =
    read_length-horner 127 (big_endian 8 n) (omega arith) (omega arith) ∙ omega arith

-- The marker 126 is not shifted out by two.
pub read_length_2 :
    (n : ℕ) → n < 2 ^ 16 → read_length 126 ((n / 256) % 256 ∷ n % 256 ∷ []) ≡ 126 * 65536 + n
read_length_2 n h =
    read_length-horner 126 ((n / 256) % 256 ∷ n % 256 ∷ []) (omega arith) (omega arith)
    ∙ omega arith
