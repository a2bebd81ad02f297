-- ===== src/Codec/Masking.antt =====
-- `applyMask` undoes itself and keeps the length.
use distributed_im.Common.{
  ℕ, zero, suc, ◌+◌, ◌%◌, ◌≡◌, refl, ap, [], ◌∷◌, Bytes, length, get_or, All, arith,
}
use distributed_im.Common.Bits.{IsByte, bit_xor_twice}
use distributed_im.Codec.{mask_from, apply_mask}

get_or-IsByte : (key : Bytes) (i : ℕ) → All IsByte key → IsByte (get_or key i 0)
get_or-IsByte [] i h = omega arith
get_or-IsByte (k ∷ key) zero h = h.0
get_or-IsByte (k ∷ key) (suc i) h = get_or-IsByte key i h.1

mask_from_twice :
    (i : ℕ) (key bs : Bytes)
    → All IsByte key
    → All IsByte bs
    → mask_from i key (mask_from i key bs) ≡ bs
unfolding mask_from
mask_from_twice i key [] hk hb = refl
mask_from_twice i key (b ∷ bs) hk hb = ground (
  arith,
  bit_xor_twice b (get_or key (i % 4) 0) hb.0 (get_or-IsByte key (i % 4) hk),
  mask_from_twice (i + 1) key bs hk hb.1,
)

pub apply_mask_twice :
    (bs key : Bytes) → All IsByte key → All IsByte bs → apply_mask (apply_mask bs key) key ≡ bs
unfolding apply_mask
apply_mask_twice bs key hk hb = mask_from_twice 0 key bs hk hb

length-mask_from : (i : ℕ) (key bs : Bytes) → length (mask_from i key bs) ≡ length bs
unfolding mask_from
length-mask_from i key [] = refl
length-mask_from i key (b ∷ bs) = ap suc (length-mask_from (i + 1) key bs)

pub length-apply_mask : (bs key : Bytes) → length (apply_mask bs key) ≡ length bs
unfolding apply_mask
length-apply_mask bs key = length-mask_from 0 key bs
