-- ===== src/Common/Text.antt =====
-- Byte strings as texts: literals, `std::string::find`, `substr`, lines and trimming.
use Prim.Native.Char.{code}
use Prim.Native.String.{String}
use Prim.Native.Nat.{ℕ, suc}
use mathlib.Core.Path.{◌≡◌, refl}
use mathlib.Core.Bool.{Bool, true, false, ◌&&◌}
use mathlib.Core.Option.{Option, none, some}
use mathlib.Core.Option
use mathlib.Core.List.{List, [], ◌∷◌, ◌++◌}
use native.Mathlib.Omega.{arith}
use distributed_im.Common.Tests.{◌==◌, if◌then◌else◌}
use distributed_im.Common.Lists.{Bytes, is_empty}

-- The bytes of an ASCII literal.
abbrev pub codes : String → Bytes
codes String.[] = []
codes (String.◌∷◌ c s) = code c ∷ codes s

unfoldable pub starts_with : Bytes → Bytes → Bool
starts_with [] s = true
starts_with (x ∷ xs) [] = false
starts_with (x ∷ xs) (y ∷ ys) = x == y && starts_with xs ys

-- The position of the first occurrence; `none` is `npos`.
unfoldable pub find_text : Bytes → Bytes → Option ℕ
unfolding starts_with
find_text pat [] = if is_empty pat then some 0 else none
find_text pat (x ∷ s) =
    let later = find_text pat s in if starts_with pat (x ∷ s) then some 0 else Option.map suc later

unfoldable pub contains : Bytes → Bytes → Bool
unfolding find_text
contains pat s = elim (find_text pat s) [ none ↦ false | some i ↦ true ]

-- `while (!s.empty() && p(s.back())) s.pop_back();`
unfoldable pub trim_right : (ℕ → Bool) → Bytes → Bytes
trim_right p [] = []
trim_right p (x ∷ xs) = let rest = trim_right p xs in if is_empty rest && p x then [] else x ∷ rest

-- `std::getline` until the stream ends: a last line without `\n` counts, an empty one does not.
unfoldable pub lines_from : Bytes → Bytes → List Bytes
lines_from line [] = if is_empty line then [] else line ∷ []
lines_from line (c ∷ cs) = elim (c == b'\n') [
  | true ↦ line ∷ lines_from [] cs
  | false ↦ lines_from (line ++ (c ∷ [])) cs
]

unfoldable pub lines : Bytes → List Bytes
unfolding lines_from
lines s = lines_from [] s

-- Trimming leaves nothing more to trim.
pub trim_right_idem : (p : ℕ → Bool) (s : Bytes) → trim_right p (trim_right p s) ≡ trim_right p s
unfolding trim_right
trim_right_idem p [] = refl
trim_right_idem p (x ∷ xs) = ground (arith, trim_right_idem p xs)
