-- ===== src/Config/Values.antt =====
-- gateway/src/Config.cpp, the helpers: trimming, and the values that the sections take.
use distributed_im.Common.{
  ℕ, ◌+◌, Bool, true, false, ◌&&◌, ◌||◌, List, [], ◌∷◌, none, some, Bytes, is_empty, ite, leb, ◌==◌,
  if◌then◌else◌, map,
}
use distributed_im.Common.Assoc.{bytes_discrete}
use distributed_im.Common.Decimal.{ℤ, pos, negsuc, stoi, skip_spaces, is_space, is_digit}
use distributed_im.Common.Text.{codes, trim_right}

abbrev pub equals : Bytes → Bytes → Bool
equals a b = ite (bytes_discrete a b) true false

-- `isspace` and `tolower` are those of the C locale. The code steps back from `begin()` on an empty text.
unfoldable pub trim : Bytes → Bytes
unfolding skip_spaces trim_right
trim s = trim_right is_space (skip_spaces s)

abbrev pub to_lower : ℕ → ℕ
to_lower c = if leb 65 c && leb c 90 then c + 32 else c

unfoldable pub lower : Bytes → Bytes
lower s = map to_lower s

unfoldable pub parse_bool : Bytes → Bool
unfolding lower
parse_bool value =
    equals (lower value) (codes "true")
    || equals (lower value) (codes "1")
    || equals (lower value) (codes "yes")

-- `lo ≤ v ≤ hi`, of an `int`.
unfoldable pub between : ℕ → ℕ → ℤ → Bool
between lo hi (pos n) = leb lo n && leb n hi
between lo hi (negsuc n) = false

-- Whether it succeeds, and the result; an exception of `stoi` is caught.
unfoldable pub parse_int_safe : Bytes → ℕ → ℕ → ℤ → Bool × ℤ
unfolding between
parse_int_safe value lo hi default_value = elim (stoi value) [
  | none ↦ (false, default_value)
  | some v ↦ if between lo hi v then (true, v) else (false, default_value)
]

unfoldable pub one_of : List Bytes → Bytes → Bool
one_of [] s = false
one_of (x ∷ xs) s = equals s x || one_of xs s

unfoldable pub is_valid_log_level : Bytes → Bool
unfolding one_of
is_valid_log_level level =
    one_of
      (codes "trace"
        ∷ codes "debug"
        ∷ codes "info"
        ∷ codes "warn"
        ∷ codes "error"
        ∷ codes "critical"
        ∷ [])
      level

abbrev is_alpha : ℕ → Bool
is_alpha c = leb 65 c && leb c 90 || (leb 97 c && leb c 122)

unfoldable pub host_byte : ℕ → Bool
host_byte c = is_alpha c || is_digit c || c == b'.' || c == b'-'

unfoldable pub all_bytes : (ℕ → Bool) → Bytes → Bool
all_bytes p [] = true
all_bytes p (c ∷ cs) = p c && all_bytes p cs

-- `s.front() == c` and `s.back() == c`, of a text that is not empty.
unfoldable pub starts_at : ℕ → Bytes → Bool
starts_at c [] = false
starts_at c (x ∷ xs) = x == c

unfoldable pub ends_at : ℕ → Bytes → Bool
ends_at c [] = false
ends_at c (x ∷ []) = x == c
ends_at c (x ∷ y ∷ xs) = ends_at c (y ∷ xs)

unfoldable pub is_valid_host : Bytes → Bool
unfolding starts_at ends_at all_bytes host_byte
is_valid_host host =
    if is_empty host
    then false
    else if equals host (codes "localhost")
    then true
    else if starts_at b'.' host || ends_at b'.' host
    then false
    else all_bytes host_byte host
