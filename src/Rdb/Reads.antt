-- ===== src/Rdb/Reads.antt =====
-- What the writers of src/storage/rdb.cpp put before the rest of a file, the readers take off it.
use redis_like.Base.{
  ℕ, zero, suc, ◌/◌, ◌^◌, ◌<◌, ◌≡◌, refl, ◌∙◌, ap, true, ◌++◌, append_assoc, leb, Bytes, length,
  length-append, take-length, drop-length, ℤ, pos, negsuc, to_u64, of_u64, IsI64, arith, wrap,
  wrap_id,
}
use redis_like.Rdb.Words.{
  bytes_of, number_of, write_i64, write_string, Stream, read, read_number, read_i64, read_string,
}

-- a stream with the given rest
abbrev pub at : Bytes → Stream
at s = record { rest = s; good = true }

pub length-bytes_of : (n v : ℕ) → length (bytes_of n v) ≡ n
unfolding bytes_of
length-bytes_of zero v = refl
length-bytes_of (suc n) v = ap suc (length-bytes_of n (v / 256))

pub number_of-bytes_of : (n v : ℕ) → v < 256 ^ n → number_of (bytes_of n v) ≡ v
unfolding number_of bytes_of
number_of-bytes_of zero v h = omega (arith, h)
number_of-bytes_of (suc n) v h = omega (arith, number_of-bytes_of n (v / 256) (omega (arith, h)))

length_le : (s t : Bytes) → leb (length s) (length (s ++ t)) ≡ true
length_le s t = ground (arith, length-append s t)

pub read_lem : (s t : Bytes) → read (length s) (at (s ++ t)) ≡ (s, at t)
unfolding read
read_lem s t = rw (length_le s t, take-length s t, drop-length s t) refl

pub read_number-bytes_of :
    (n v : ℕ) (t : Bytes) → v < 256 ^ n → read_number n (at (bytes_of n v ++ t)) ≡ (v, at t)
unfolding read_number
read_number-bytes_of n v t h =
    let taken : read n (at (bytes_of n v ++ t)) ≡ (bytes_of n v, at t) =
      rw (length-bytes_of n v) at (read_lem (bytes_of n v) t) in
    rw (taken, number_of-bytes_of n v h) refl

pub read_string-write_string :
    (s t : Bytes) → length s < 2 ^ 32 → read_string (at (write_string s ++ t)) ≡ (s, at t)
unfolding write_string read_string
read_string-write_string s t h =
    let len = read_number-bytes_of 4 (length s) (s ++ t) (omega (arith, h)) in
    ap (λ u. read_string (at u)) (append_assoc (bytes_of 4 (length s)) s t)
    ∙ ap (λ p. read p.0 p.1) len
    ∙ read_lem s t

of-to_u64 : (a : ℤ) → IsI64 a → of_u64 (to_u64 a) ≡ a
of-to_u64 a h = unfold wrap in wrap_id a h

to_u64_lt : (a : ℤ) → to_u64 a < 256 ^ 8
unfolding to_u64
to_u64_lt (pos n) = omega arith
to_u64_lt (negsuc n) = omega arith

pub read_i64-write_i64 :
    (a : ℤ) (t : Bytes) → IsI64 a → read_i64 (at (write_i64 a ++ t)) ≡ (a, at t)
unfolding write_i64 read_i64
read_i64-write_i64 a t h =
    ap (λ p. (of_u64 p.0, p.1)) (read_number-bytes_of 8 (to_u64 a) t (to_u64_lt a))
    ∙ ap (λ b. (b, at t)) (of-to_u64 a h)
