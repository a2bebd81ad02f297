-- ===== src/Common/Bits.antt =====
-- Bit operations as arithmetic: tables over a byte, and the digit recursion for wider words.
use Prim.Native.Nat.{ℕ, zero, suc, ◌+◌, ◌*◌, ◌/◌, ◌%◌, ◌^◌, ◌≤◌, ◌<◌, max, bit_or, bit_xor}
use Prim.Native.Nat.{digits, bit_or-bitwise}
use mathlib.Core.Path.{◌≡◌, refl, ap}
use mathlib.Core.Bool.{Bool, true, ◌&&◌}
use native.Mathlib.Omega.{arith}
use distributed_im.Common.Tests.{◌==◌, ==_iff}

abbrev pub IsByte : ℕ → Type 0
IsByte b = b < 256

-- A test that holds at every number below the bound, by evaluation.
unfoldable pub holds_below : (ℕ → Bool) → ℕ → Bool
holds_below test zero = true
holds_below test (suc k) = holds_below test k && test k

pub holds_below_lem :
    (test : ℕ → Bool) (bound k : ℕ) → k < bound → holds_below test bound ≡ true → test k ≡ true
unfolding holds_below
holds_below_lem test (suc bound) k below all = ground (arith, holds_below_lem test bound k)
holds_below_lem test zero k below all = absurd (omega arith)

xor_table : holds_below (λ k. holds_below (λ x. bit_xor (bit_xor x k) k == x) 256) 256 ≡ true
unfolding holds_below
xor_table = refl

pub bit_xor_twice : (x k : ℕ) → IsByte x → IsByte k → bit_xor (bit_xor x k) k ≡ x
bit_xor_twice x k hx hk =
    (==_iff _ x).0 (holds_below_lem _ 256 x hx (holds_below_lem _ 256 k hk xor_table))

or_top_table : holds_below (λ x. bit_or 128 x == 128 + x) 128 ≡ true
unfolding holds_below
or_top_table = refl

pub bit_or_top : (x : ℕ) → x < 128 → bit_or 128 x ≡ 128 + x
bit_or_top x h = (==_iff _ (128 + x)).0 (holds_below_lem _ 128 x h or_top_table)

-- The law for the lowest digit.
abbrev or_digits : ℕ → ℕ → ℕ → ℕ
or_digits n a b = digits (λ b. b) max n a b

or_digits_fuel : (n m a b : ℕ) → a ≤ n → a ≤ m → or_digits n a b ≡ or_digits m a b
or_digits_fuel zero zero a b p q = refl
or_digits_fuel zero (suc m) zero b p q = refl
or_digits_fuel zero (suc m) (suc a) b p q = absurd (omega arith)
or_digits_fuel (suc n) zero zero b p q = refl
or_digits_fuel (suc n) zero (suc a) b p q = absurd (omega arith)
or_digits_fuel (suc n) (suc m) zero b p q = refl
or_digits_fuel (suc n) (suc m) (suc a) b p q =
    omega (arith, or_digits_fuel n m (suc a / 2) (b / 2) (omega arith) (omega arith))

pub zero-bit_or : (b : ℕ) → bit_or 0 b ≡ b
zero-bit_or b = bit_or-bitwise 0 b

bit_or_step : (a b : ℕ) → bit_or a b ≡ bit_or (a / 2) (b / 2) * 2 + max (a % 2) (b % 2)
bit_or_step zero b = omega (arith, zero-bit_or b, zero-bit_or (b / 2))
bit_or_step (suc a) b = omega (
  arith,
  bit_or-bitwise (suc a) b,
  bit_or-bitwise (suc a / 2) (b / 2),
  or_digits_fuel a (suc a / 2) (suc a / 2) (b / 2) (omega arith) (omega arith),
)

bit_or-zero_fuel : (n a : ℕ) → a ≤ n → bit_or a 0 ≡ a
bit_or-zero_fuel n zero h = omega (arith, zero-bit_or 0)
bit_or-zero_fuel zero (suc a) h = absurd (omega arith)
bit_or-zero_fuel (suc n) (suc a) h =
    omega (arith, bit_or_step (suc a) 0, bit_or-zero_fuel n (suc a / 2) (omega arith))

pub bit_or_shifted : (k x y b : ℕ) → y ≡ x * 2 ^ k → b < 2 ^ k → bit_or y b ≡ y + b
bit_or_shifted zero x y b e h =
    let low : b ≡ 0 = omega arith in rw low (omega (arith, bit_or-zero_fuel y y (omega arith)))
bit_or_shifted (suc k) x y b e h = omega (
  arith,
  bit_or_step y b,
  half,
  bit_or_shifted k x (y / 2) (b / 2) (omega (arith, half)) (omega (arith, twice)),
)
  where
    twice : 2 ^ suc k ≡ 2 * 2 ^ k
    twice = omega arith

    half : y ≡ 2 * (x * 2 ^ k)
    half = omega (arith, ap (λ (t : ℕ). x * t) twice)

-- `(x << 8) | b`.
pub bit_or_byte : (x b : ℕ) → IsByte b → bit_or (x * 256) b ≡ x * 256 + b
bit_or_byte x b h = bit_or_shifted 8 x (x * 256) b (omega arith) (omega arith)
