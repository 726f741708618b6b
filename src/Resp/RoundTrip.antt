-- ===== src/Resp/RoundTrip.antt =====
-- `Feed` reads back what the writers of the codec write.
use redis_like.Base.{
  ℕ, zero, suc, ◌+◌, ◌/◌, ◌%◌, ◌^◌, ◌≤◌, ◌<◌, ◌≡◌, refl, true, some, List, [], ◌∷◌, ◌++◌, arith,
  append_assoc, append-nil, Bytes, length, length-append, length-map, take-length, drop-length, All,
  map, pos,
}
use redis_like.Text.{is_digit, decimal, print_ℕ, strtoll_or_zero}
use redis_like.Text.RoundTrip.{strtoll-print_ℕ}
use redis_like.Resp.{
  crlf, bulk_string, concat, array, read_line, skip_crlf, bulk_len, read_token, read_bulk,
  read_bulks, emit, array_len, read_command, read_array, round,
}

abbrev IsDigits : Bytes → Type 0
IsDigits = All (λ c. is_digit c ≡ true)

decimal-IsDigits : (fuel n : ℕ) (out : Bytes) → IsDigits out → IsDigits (decimal fuel n out)
unfolding decimal
decimal-IsDigits zero n out h = h
decimal-IsDigits (suc fuel) n out h =
    ground (arith, decimal-IsDigits fuel (n / 10) ((b'0' + n % 10) ∷ out))

print_ℕ-IsDigits : (n : ℕ) → IsDigits (print_ℕ n)
unfolding print_ℕ
print_ℕ-IsDigits n = decimal-IsDigits (suc n) n [] tt

read_line-digits : (s rest : Bytes) → IsDigits s → read_line (s ++ (crlf ++ rest)) ≡ some (s, rest)
unfolding read_line
read_line-digits [] rest h = refl
read_line-digits (c ∷ []) rest h = ground arith
read_line-digits (c ∷ d ∷ s) rest h = ground (arith, read_line-digits (d ∷ s) rest h.1)

-- a length line of the writers
pub read_line-print_ℕ :
    (n : ℕ) (rest : Bytes) → read_line (print_ℕ n ++ (crlf ++ rest)) ≡ some (print_ℕ n, rest)
read_line-print_ℕ n rest = read_line-digits (print_ℕ n) rest (print_ℕ-IsDigits n)

strtoll_or_zero-print_ℕ : (n : ℕ) → n < 2 ^ 63 → strtoll_or_zero (print_ℕ n) ≡ pos n
unfolding strtoll_or_zero
strtoll_or_zero-print_ℕ n fits =
    rw (rw append-nil at (strtoll-print_ℕ n [] fits tt), strtoll_or_zero)

bulk_len-print_ℕ : (n : ℕ) → n < 2 ^ 63 → bulk_len (print_ℕ n) ≡ n
unfolding bulk_len
bulk_len-print_ℕ n fits = rw (strtoll_or_zero-print_ℕ n fits)

read_token-crlf : (s rest : Bytes) → read_token (length s) (s ++ (crlf ++ rest)) ≡ some (s, rest)
unfolding read_token skip_crlf
read_token-crlf s rest = ground (
  arith,
  length-append {0} s (crlf ++ rest),
  take-length {0} s (crlf ++ rest),
  drop-length {0} s (crlf ++ rest),
)

bulk_string-append :
    (s rest : Bytes)
    → bulk_string s ++ rest ≡ b'$' ∷ (print_ℕ (length s) ++ (crlf ++ (s ++ (crlf ++ rest))))
unfolding bulk_string
bulk_string-append s rest = simp append_assoc

-- A bulk string of any bytes is read as one token, up to its last byte.
pub read_bulk-bulk_string :
    (s rest : Bytes) → length s < 2 ^ 63 → read_bulk (bulk_string s ++ rest) ≡ some (s, rest)
read_bulk-bulk_string s rest fits = rw bulk_string-append (
    unfold read_bulk in
    rw (
      read_line-print_ℕ (length s) (s ++ (crlf ++ rest)),
      read_bulk,
      bulk_len-print_ℕ (length s) fits,
      read_token-crlf s rest,
    ))

-- the tokens of a command, each short enough for its length to be an `int64_t`
abbrev pub AreShort : List Bytes → Type 0
AreShort = All (λ s. length s < 2 ^ 63)

read_bulks-concat :
    (tokens : List Bytes) (rest : Bytes)
    → AreShort tokens
    → read_bulks (length tokens) (concat (map bulk_string tokens) ++ rest) ≡ some (tokens, rest)
read_bulks-concat [] rest h = unfold read_bulks concat in refl
read_bulks-concat (t ∷ tokens) rest h = go (read_bulks-concat tokens rest h.1)
  where
    go :
        read_bulks (length tokens) (concat (map bulk_string tokens) ++ rest) ≡ some (tokens, rest)
        → read_bulks (suc (length tokens)) (concat (map bulk_string (t ∷ tokens)) ++ rest)
          ≡ some (t ∷ tokens, rest)
    go ih =
        unfold concat in
        rw append_assoc (unfold read_bulks in rw (read_bulk-bulk_string t _ h.0, read_bulks, ih))

pub array_len-print_ℕ : (n : ℕ) → 0 < n → n ≤ 256 → array_len (print_ℕ n) ≡ some n
unfolding array_len
array_len-print_ℕ n h k = rw (strtoll_or_zero-print_ℕ n (omega arith)) (ground arith)

array-append :
    (items : List Bytes) (rest : Bytes)
    → array items ++ rest ≡ b'*' ∷ (print_ℕ (length items) ++ (crlf ++ (concat items ++ rest)))
unfolding array
array-append items rest = simp append_assoc

-- A round at a command that is written as an array of 1 to 256 bulk strings reads it back, its
-- name and arguments as they were, and goes on behind it, whatever follows.
pub round-array :
    (name : Bytes) (args : List Bytes) (rest : Bytes)
    → AreShort (name ∷ args)
    → length args < 256
    → round (array (map bulk_string (name ∷ args)) ++ rest)
      ≡ emit (record { name = name; args = args }) rest
round-array name args rest short few =
    rw (array-append, length-map)
      (unfold round in
        rw (
          read_line-print_ℕ (length (name ∷ args)) (concat (map bulk_string (name ∷ args)) ++ rest),
          read_array,
          array_len-print_ℕ (length (name ∷ args)) (omega arith) (omega arith),
          read_command,
          read_bulks-concat (name ∷ args) rest short,
        ))
