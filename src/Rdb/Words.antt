-- ===== src/Rdb/Words.antt =====
-- The primitive writers and readers of src/storage/rdb.cpp. Numbers stand in memory with their lowest
-- byte first, as on the machines that the program is built for.
use redis_like.Base.{
  ℕ, zero, suc, ◌+◌, ◌-◌, ◌*◌, ◌/◌, ◌%◌, Bool, false, [], ◌∷◌, ◌++◌, leb, if◌then◌else◌, Bytes,
  length, take, drop, ℤ, to_u64, of_u64,
}

-- the `n` low bytes of a number
unfoldable pub bytes_of : ℕ → ℕ → Bytes
bytes_of zero v = []
bytes_of (suc n) v = (v % 256) ∷ bytes_of n (v / 256)

unfoldable pub number_of : Bytes → ℕ
number_of [] = 0
number_of (c ∷ s) = c + 256 * number_of s

abbrev pub write_u8 : ℕ → Bytes
write_u8 v = bytes_of 1 v

abbrev pub write_u32 : ℕ → Bytes
write_u32 v = bytes_of 4 v

unfoldable pub write_i64 : ℤ → Bytes
unfolding to_u64
write_i64 v = bytes_of 8 (to_u64 v)

-- a `double` is its pattern
abbrev pub write_double : ℕ → Bytes
write_double v = bytes_of 8 v

unfoldable pub write_string : Bytes → Bytes
write_string s = write_u32 (length s) ++ s

-- the input: what is left of the file, and whether no read has failed
pub record Stream : Type 0 where
  pub rest : Bytes
  pub good : Bool

unfoldable pub zeros : ℕ → Bytes
zeros zero = []
zeros (suc n) = 0 ∷ zeros n

-- `is.read` into `n` bytes that are zero: a read past the end fails and keeps what was there, and a
-- stream that has failed gives nothing.
unfoldable pub read : ℕ → Stream → Bytes × Stream
unfolding zeros
read n is =
    if is.good
    then (if leb n (length is.rest)
        then (take n is.rest, record is { rest = drop n is.rest })
        else (is.rest ++ zeros (n - length is.rest), record { rest = []; good = false }))
    else (zeros n, is)

unfoldable pub read_number : ℕ → Stream → ℕ × Stream
unfolding read number_of
read_number n is = let (s, is') = read n is in (number_of s, is')

abbrev pub read_u8 : Stream → ℕ × Stream
read_u8 = read_number 1

abbrev pub read_u32 : Stream → ℕ × Stream
read_u32 = read_number 4

unfoldable pub read_i64 : Stream → ℤ × Stream
unfolding read_number of_u64
read_i64 is = let (v, is') = read_number 8 is in (of_u64 v, is')

abbrev pub read_double : Stream → ℕ × Stream
read_double = read_number 8

unfoldable pub read_string : Stream → Bytes × Stream
unfolding read read_number
read_string is = let (len, is') = read_u32 is in read len is'
