-- ===== src/Text.antt =====
-- `std::strtoll` in base ten and `std::to_string` of the C++ library, which the program reads and
-- writes its numbers with, and `ParseInt` of the command files.
pub mod RoundTrip
use redis_like.Base.{
  ℕ, zero, suc, ◌+◌, ◌-◌, ◌*◌, ◌/◌, ◌%◌, ◌^◌, ◌≡◌, refl, Bool, true, false, ◌&&◌, ◌||◌, Option,
  none, some, List, [], ◌∷◌, ltb, leb, ◌==◌, if◌then◌else◌, Bytes, codes, ℤ, pos, negsuc, neg_part,
  pos_part,
}

abbrev pub int64_max : ℕ
int64_max = 2 ^ 63 - 1

-- `std::isspace` in the C locale
abbrev is_space : ℕ → Bool
is_space c = c == 32 || leb 9 c && leb c 13

abbrev pub is_digit : ℕ → Bool
is_digit c = leb b'0' c && leb c b'9'

unfoldable pub skip_space : Bytes → Bytes
skip_space [] = []
skip_space (c ∷ s) = let rest = skip_space s in if is_space c then rest else c ∷ s

-- the digits at the front, read behind `n`, and what follows them
unfoldable pub scan : ℕ → Bytes → ℕ × Bytes
scan n [] = (n, [])
scan n (c ∷ s) = let more = scan (n * 10 + (c - b'0')) s in if is_digit c then more else (n, c ∷ s)

-- The number out of its sign and magnitude: `strtoll` keeps to the range of `int64_t`.
unfoldable pub clamp : Bool → ℕ → ℤ
clamp true zero = pos 0
clamp true (suc m) = if ltb int64_max m then negsuc int64_max else negsuc m
clamp false m = if ltb int64_max m then pos int64_max else pos m

-- one digit at least
unfoldable pub magnitude : Bool → Bytes → Option (ℤ × Bytes)
unfolding scan clamp
magnitude neg [] = none
magnitude neg (c ∷ s) =
    if is_digit c then (let (n, rest) = scan 0 (c ∷ s) in some (clamp neg n, rest)) else none

unfoldable pub signed : Bytes → Option (ℤ × Bytes)
unfolding magnitude
signed [] = none
signed (c ∷ s) =
    if c == b'-'
    then magnitude true s
    else if c == b'+'
    then magnitude false s
    else magnitude false (c ∷ s)

-- The number at the front of the text and the text from `*end` on; `none` if `end` is left at the
-- start. A NUL byte is no space, sign or digit, so the scan stops there as on a C string.
unfoldable pub strtoll : Bytes → Option (ℤ × Bytes)
unfolding skip_space signed
strtoll s = signed (skip_space s)

-- `strtoll(line.c_str(), nullptr, 10)`
unfoldable pub strtoll_or_zero : Bytes → ℤ
unfolding strtoll
strtoll_or_zero s = elim (strtoll s) [ none ↦ pos 0 | some (n, _) ↦ n ]

-- `*end == '\0'`: the end of the text, or a NUL byte in it
abbrev pub at_nul : Bytes → Bool
at_nul [] = true
at_nul (c ∷ s) = c == 0

unfoldable pub parse_int : Bytes → Option ℤ
unfolding strtoll
parse_int s = elim (strtoll s) [
  | none ↦ none
  | some (n, rest) ↦ if at_nul rest then some n else none
]

-- the decimal digits of `n` in front of `out`; `fuel` bounds the digits
unfoldable pub decimal : ℕ → ℕ → Bytes → Bytes
decimal zero n out = out
decimal (suc fuel) n out =
    let more = decimal fuel (n / 10) ((b'0' + n % 10) ∷ out) in
    if ltb n 10 then (b'0' + n) ∷ out else more

-- `std::to_string` of a `size_t`
unfoldable pub print_ℕ : ℕ → Bytes
unfolding decimal
print_ℕ n = decimal (suc n) n []

-- `std::to_string` of an `int64_t`
unfoldable pub to_string : ℤ → Bytes
unfolding print_ℕ
to_string (pos n) = print_ℕ n
to_string (negsuc n) = b'-' ∷ print_ℕ (suc n)

print_min : to_string (negsuc int64_max) ≡ codes "-9223372036854775808"
unfolding to_string
print_min = refl

parse_trailing : parse_int (codes "12x") ≡ none
unfolding parse_int
parse_trailing = refl

parse_saturated : parse_int (codes " +9223372036854775999") ≡ some (pos int64_max)
unfolding parse_int
parse_saturated = refl
