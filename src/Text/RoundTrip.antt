-- ===== src/Text/RoundTrip.antt =====
-- Numbers that `std::to_string` prints are read back by `strtoll`, whatever text follows them.
use redis_like.Base.{
  ℕ, zero, suc, ◌+◌, ◌/◌, ◌%◌, ◌^◌, ◌<◌, ◌≡◌, refl, ◌∙◌, Bool, true, false, some, [], ◌∷◌, ◌++◌,
  append-nil, arith, Bytes, ℤ, pos, negsuc, IsI64,
}
use redis_like.Text.{
  is_digit, scan, clamp, magnitude, signed, skip_space, strtoll, parse_int, decimal, print_ℕ,
  to_string,
}

-- the text does not go on with a digit
abbrev pub NoDigit : Bytes → Type 0
NoDigit [] = Unit
NoDigit (c ∷ s) = is_digit c ≡ false

-- the text begins with a digit
abbrev HeadDigit : Bytes → Type 0
HeadDigit [] = ⊥
HeadDigit (c ∷ s) = is_digit c ≡ true

scan-NoDigit : (n : ℕ) (rest : Bytes) → NoDigit rest → scan n rest ≡ (n, rest)
unfolding scan
scan-NoDigit n [] h = refl
scan-NoDigit n (c ∷ s) h = ground arith

scan-decimal :
    (fuel n : ℕ) (out rest : Bytes)
    → n < fuel
    → scan 0 (decimal fuel n out ++ rest) ≡ scan n (out ++ rest)
unfolding scan decimal
scan-decimal zero n out rest h = elim h [ ]
scan-decimal (suc fuel) n out rest h =
    ground (arith, scan-decimal fuel (n / 10) ((b'0' + n % 10) ∷ out) rest)

HeadDigit-decimal : (fuel n : ℕ) (out : Bytes) → HeadDigit out → HeadDigit (decimal fuel n out)
unfolding decimal
HeadDigit-decimal zero n out h = h
HeadDigit-decimal (suc fuel) n out h =
    ground (arith, HeadDigit-decimal fuel (n / 10) ((b'0' + n % 10) ∷ out))

HeadDigit-append : (s rest : Bytes) → HeadDigit s → HeadDigit (s ++ rest)
HeadDigit-append [] rest h = absurd h
HeadDigit-append (c ∷ s) rest h = h

HeadDigit-print_ℕ : (n : ℕ) (rest : Bytes) → HeadDigit (print_ℕ n ++ rest)
HeadDigit-print_ℕ n rest =
    HeadDigit-append _ rest (
      unfold print_ℕ decimal in ground (arith, HeadDigit-decimal n (n / 10) ((b'0' + n % 10) ∷ [])))

scan-print_ℕ : (n : ℕ) (rest : Bytes) → NoDigit rest → scan 0 (print_ℕ n ++ rest) ≡ (n, rest)
unfolding print_ℕ
scan-print_ℕ n rest h = scan-decimal (suc n) n [] rest (omega arith) ∙ scan-NoDigit n rest h

magnitude-HeadDigit :
    (neg : Bool) (s : Bytes)
    → HeadDigit s
    → magnitude neg s ≡ some (clamp neg (scan 0 s).0, (scan 0 s).1)
unfolding magnitude
magnitude-HeadDigit neg [] h = absurd h
magnitude-HeadDigit neg (c ∷ s) h = ground arith

signed-HeadDigit : (s : Bytes) → HeadDigit s → signed s ≡ magnitude false s
unfolding signed
signed-HeadDigit [] h = absurd h
signed-HeadDigit (c ∷ s) h = ground arith

skip_space-HeadDigit : (s : Bytes) → HeadDigit s → skip_space s ≡ s
unfolding skip_space
skip_space-HeadDigit [] h = absurd h
skip_space-HeadDigit (c ∷ s) h = ground arith

clamp-pos : (n : ℕ) → n < 2 ^ 63 → clamp false n ≡ pos n
unfolding clamp
clamp-pos n h = ground arith

clamp-neg : (n : ℕ) → n < 2 ^ 63 → clamp true (suc n) ≡ negsuc n
unfolding clamp
clamp-neg n h = ground arith

-- the reader at the print of a size
pub strtoll-print_ℕ :
    (n : ℕ) (rest : Bytes)
    → n < 2 ^ 63
    → NoDigit rest
    → strtoll (print_ℕ n ++ rest) ≡ some (pos n, rest)
unfolding strtoll
strtoll-print_ℕ n rest fits h =
    let d = HeadDigit-print_ℕ n rest in
    rw (
      skip_space-HeadDigit _ d,
      signed-HeadDigit _ d,
      magnitude-HeadDigit false _ d,
      scan-print_ℕ n rest h,
      clamp-pos n fits,
    )

pub strtoll-to_string :
    (z : ℤ) (rest : Bytes) → IsI64 z → NoDigit rest → strtoll (to_string z ++ rest) ≡ some (z, rest)
unfolding to_string
strtoll-to_string (pos n) rest fits h = strtoll-print_ℕ n rest fits.0 h
strtoll-to_string (negsuc n) rest fits h =
    unfold strtoll skip_space signed in
    rw (
      magnitude-HeadDigit true _ (HeadDigit-print_ℕ (suc n) rest),
      scan-print_ℕ (suc n) rest h,
      clamp-neg n (omega arith),
    )

-- Every `int64_t` that is printed is accepted by `ParseInt`, as the number that it was.
pub parse_int-to_string : (z : ℤ) → IsI64 z → parse_int (to_string z) ≡ some z
unfolding parse_int
parse_int-to_string z fits = rw (read, parse_int)
  where
    read : strtoll (to_string z) ≡ some (z, [])
    read = rw append-nil at (strtoll-to_string z [] fits tt)
