-- ===== src/Resp/Sizes.antt =====
-- How large the commands are that `Feed` reads.
use mathlib.Core.Path.{subst}
use redis_like.Base.{
  ℕ, zero, suc, ◌^◌, ◌≤◌, ◌<◌, ◌≡◌, refl, Bool, true, false, Option, none, some, List, [], ◌∷◌,
  ◌==◌, arith, Bytes, length, length-take, All, inl, inr, Option-cases, Bool-cases, ℤ, pos,
  pos_part, if◌then◌else◌, ap, ◌++◌,
}
use redis_like.Text.{clamp, magnitude, signed, strtoll, strtoll_or_zero, skip_space, scan, is_digit}
use redis_like.Resp.{
  RespCommand, bulk_len, read_line, read_token, read_bulk, read_bulks, to_command, Round, wait,
  skip, emit, array_len, read_command, read_array, round, after_round, feed_loop, feed,
}
use redis_like.Resp.RoundTrip.{AreShort}

-- the number of a length line, as `strtoll` gives it, is an `int64_t`
abbrev IsInt64 : Option (ℤ × Bytes) → Type 0
IsInt64 none = Unit
IsInt64 (some (n, rest)) = pos_part n < 2 ^ 63

clamp-lt : (neg : Bool) (n : ℕ) → pos_part (clamp neg n) < 2 ^ 63
unfolding clamp
clamp-lt true zero = omega arith
clamp-lt true (suc m) = ground arith
clamp-lt false m = ground arith

if-IsInt64 :
    (b : Bool) (x y : Option (ℤ × Bytes)) → IsInt64 x → IsInt64 y → IsInt64 (if b then x else y)
if-IsInt64 true x y h k = h
if-IsInt64 false x y h k = k

magnitude-IsInt64 : (neg : Bool) (s : Bytes) → IsInt64 (magnitude neg s)
unfolding magnitude
magnitude-IsInt64 neg [] = tt
magnitude-IsInt64 neg (c ∷ s) =
    if-IsInt64 (is_digit c) (some (clamp neg (scan 0 (c ∷ s)).0, (scan 0 (c ∷ s)).1)) none
      (clamp-lt neg (scan 0 (c ∷ s)).0) tt

signed-IsInt64 : (s : Bytes) → IsInt64 (signed s)
unfolding signed
signed-IsInt64 [] = tt
signed-IsInt64 (c ∷ s) = if-IsInt64 (c == b'-') (magnitude true s) _ (magnitude-IsInt64 true s) (
    if-IsInt64 (c == b'+') (magnitude false s) (magnitude false (c ∷ s)) (magnitude-IsInt64 false s)
      (magnitude-IsInt64 false (c ∷ s)))

or_zero-lt :
    (x : Option (ℤ × Bytes))
    → IsInt64 x
    → pos_part (elim x [ none ↦ pos 0 | some (n, rest) ↦ n ]) < 2 ^ 63
or_zero-lt none h = omega arith
or_zero-lt (some (n, rest)) h = h

bulk_len-lt : (line : Bytes) → bulk_len line < 2 ^ 63
unfolding bulk_len strtoll_or_zero strtoll
bulk_len-lt line = or_zero-lt (signed (skip_space line)) (signed-IsInt64 (skip_space line))

read_token-lt :
    (n : ℕ) (s token rest : Bytes) → read_token n s ≡ some (token, rest) → length token ≤ n
unfolding read_token
read_token-lt n s token rest h = ground (arith, length-take {0} n s)

read_bulk-lt : (s token rest : Bytes) → read_bulk s ≡ some (token, rest) → length token < 2 ^ 63
unfolding read_bulk
read_bulk-lt [] token rest h = cc
read_bulk-lt (c ∷ s) token rest h = elim (Option-cases (read_line s)) [
  | inl e ↦ ground arith
  | inr (p, e) ↦ ground (arith, read_token-lt (bulk_len p.0) p.1 token rest, bulk_len-lt p.0)
]

abbrev AreSized : ℕ → Option (List Bytes × Bytes) → Type 0
AreSized n none = Unit
AreSized n (some (tokens, rest)) = AreShort tokens × (length tokens ≡ n)

read_bulks-AreSized : (n : ℕ) (s : Bytes) → AreSized n (read_bulks n s)
unfolding read_bulks
read_bulks-AreSized zero s = (tt, refl)
read_bulks-AreSized (suc n) s = elim (Option-cases (read_bulk s)) [
  | inl e ↦ rw (read_bulks, e) tt
  | inr (p, e) ↦
      rw (read_bulks, e)
        (elim (Option-cases (read_bulks n p.1)) [
          | inl f ↦ rw f tt
          | inr (q, f) ↦
              let (short, size) = subst (AreSized n) f (read_bulks-AreSized n p.1) in
              rw f ((read_bulk-lt s p.0 p.1 e, short), ap suc size)
        ])
]

-- at most 255 arguments, and tokens whose lengths are numbers of an `int64_t`
abbrev pub IsSmall : RespCommand → Type 0
IsSmall cmd = (length cmd.args < 256) × AreShort (cmd.name ∷ cmd.args)

to_command-IsSmall :
    (n : ℕ) (tokens : List Bytes)
    → n < 257
    → AreShort tokens × (length tokens ≡ n)
    → IsSmall (to_command tokens)
unfolding to_command
to_command-IsSmall n [] h k = (omega arith, (omega arith, tt))
to_command-IsSmall n (name ∷ args) h k = (omega (arith, k.1), k.0)

abbrev Emits : Round → Type 0
Emits wait = Unit
Emits (skip rest) = Unit
Emits (emit cmd rest) = IsSmall cmd

read_command-Emits : (n : ℕ) (s : Bytes) → n < 257 → Emits (read_command n s)
unfolding read_command
read_command-Emits n s h = elim (Option-cases (read_bulks n s)) [
  | inl e ↦ rw (read_command, e) tt
  | inr (p, e) ↦
      rw (read_command, e)
        (to_command-IsSmall n p.0 h (subst (AreSized n) e (read_bulks-AreSized n s)))
]

array_len-lt : (line : Bytes) (n : ℕ) → array_len line ≡ some n → n < 257
unfolding array_len
array_len-lt line n e = ground arith

read_array-Emits : (s : Bytes) → Emits (read_array s)
unfolding read_array
read_array-Emits s = elim (Option-cases (read_line s)) [
  | inl e ↦ rw (read_array, e) tt
  | inr (p, e) ↦
      rw (read_array, e)
        (elim (Option-cases (array_len p.0)) [
          | inl f ↦ rw f tt
          | inr (n, f) ↦ rw f (read_command-Emits n p.1 (array_len-lt p.0 n f))
        ])
]

round-Emits : (s : Bytes) → Emits (round s)
unfolding round
round-Emits [] = tt
round-Emits (c ∷ s) = elim (Bool-cases (c == b'*')) [
  | inl e ↦ rw e (read_array-Emits s)
  | inr e ↦ rw e tt
]

after_round-AllSmall :
    (next : Bytes → List RespCommand × Bytes) (buf : Bytes) (r : Round)
    → ((s : Bytes) → All IsSmall (next s).0)
    → Emits r
    → All IsSmall (after_round next buf r).0
unfolding after_round
after_round-AllSmall next buf wait h k = tt
after_round-AllSmall next buf (skip s) h k = h s
after_round-AllSmall next buf (emit cmd s) h k = (k, h s)

feed_loop-AllSmall : (fuel : ℕ) (buf : Bytes) → All IsSmall (feed_loop fuel buf).0
unfolding feed_loop
feed_loop-AllSmall zero buf = tt
feed_loop-AllSmall (suc fuel) buf =
    after_round-AllSmall (feed_loop fuel) buf (round buf) (feed_loop-AllSmall fuel)
      (round-Emits buf)

-- `Feed` reads no command with more than 255 arguments, whatever comes
pub feed-AllSmall : (read_buf bytes : Bytes) → All IsSmall (feed read_buf bytes).0
unfolding feed
feed-AllSmall read_buf bytes = feed_loop-AllSmall (length (read_buf ++ bytes)) (read_buf ++ bytes)
