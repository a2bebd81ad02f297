-- ===== src/Common/Decimal.antt =====
-- `std::to_string` and `std::stoi`, for numbers that an `int` holds.
use Prim.Native.Nat.{ℕ, zero, suc, ◌+◌, ◌-◌, ◌*◌, ◌/◌, ◌%◌, ◌^◌, ◌<◌}
use mathlib.Core.Path.{◌≡◌}
use mathlib.Core.Bool.{Bool, true, false, ◌&&◌, ◌||◌}
use mathlib.Core.Option.{Option, none, some}
use mathlib.Core.List.{[], ◌∷◌, ◌++◌}
use native.Mathlib.Omega.{arith}
use distributed_im.Common.Tests.{ltb, leb, ◌==◌, if◌then◌else◌}
use distributed_im.Common.Lists.{Bytes}

-- `negsuc n` is -(n + 1).
pub data ℤ : Type 0 where
  pos : ℕ → ℤ
  negsuc : ℕ → ℤ

digits_of : ℕ → ℕ → Bytes
digits_of zero n = []
digits_of (suc fuel) n =
    let front = digits_of fuel (n / 10) in
    let last : Bytes = (48 + n % 10) ∷ [] in if ltb n 10 then last else front ++ last

-- There are no more digits than `n + 1`.
unfoldable pub to_decimal : ℕ → Bytes
unfolding digits_of
to_decimal n = digits_of (suc n) n

abbrev pub is_digit : ℕ → Bool
is_digit c = leb 48 c && leb c 57

-- The digits at the front, and whether there is one at least.
unfoldable pub read_digits : Bool → ℕ → Bytes → Option ℕ
read_digits seen acc [] = if seen then some acc else none
read_digits seen acc (c ∷ cs) = elim (is_digit c) [
  | true ↦ read_digits true (acc * 10 + (c - 48)) cs
  | false ↦ if seen then some acc else none
]

abbrev pub is_space : ℕ → Bool
is_space c = c == 32 || (leb 9 c && leb c 13)

unfoldable pub skip_spaces : Bytes → Bytes
skip_spaces [] = []
skip_spaces (c ∷ cs) = let rest = skip_spaces cs in if is_space c then rest else c ∷ cs

-- `none` where `stoi` throws: no digit, or a value out of the range of `int`.
unfoldable pub signed_value : Bytes → Option ℤ
unfolding read_digits
signed_value [] = none
signed_value (c ∷ cs) =
    if c == b'-'
    then (elim (read_digits false 0 cs) [
      | none ↦ none
      | some zero ↦ some (pos 0)
      | some (suc n) ↦ if ltb n (2 ^ 31) then some (negsuc n) else none
    ])
    else (elim (if c == b'+' then read_digits false 0 cs else read_digits false 0 (c ∷ cs)) [
      | none ↦ none
      | some n ↦ if ltb n (2 ^ 31) then some (pos n) else none
    ])

unfoldable pub stoi : Bytes → Option ℤ
unfolding skip_spaces signed_value
stoi s = signed_value (skip_spaces s)

abbrev value_with : ℕ → Bytes → ℕ
value_with acc [] = acc
value_with acc (c ∷ cs) = value_with (acc * 10 + (c - 48)) cs

value-append :
    (acc : ℕ) (xs : Bytes) (d : ℕ)
    → value_with acc (xs ++ ((48 + d) ∷ [])) ≡ value_with acc xs * 10 + d
value-append acc [] d = omega arith
value-append acc (x ∷ xs) d = value-append (acc * 10 + (x - 48)) xs d

value-digits_of : (fuel n : ℕ) → n < fuel → value_with 0 (digits_of fuel n) ≡ n
unfolding digits_of
value-digits_of zero n h = absurd (omega arith)
value-digits_of (suc fuel) n h =
    ground (arith, value-digits_of fuel (n / 10), value-append 0 (digits_of fuel (n / 10)) (n % 10))
