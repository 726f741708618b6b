-- ===== src/Resp/Rounds.antt =====
-- Each round of `Feed` uses up a part of the buffer, and bytes that come later change nothing that
-- a round has done.
use redis_like.Base.{
  ℕ, zero, suc, Option-cases, Bool-cases, inl, inr, ◌+◌, ◌≤◌, ◌<◌, ◌≡◌, ◌≢◌, refl, some, List, [],
  ◌∷◌, ◌++◌, arith, ltb, ◌==◌, Bytes, length, length-drop, length-append, take-append, drop-append,
  drop,
}
use redis_like.Resp.{
  read_line, skip_crlf, bulk_len, read_token, read_bulk, read_bulks, Round, wait, skip, emit,
  array_len, read_command, read_array, round,
}

read_line-shorter : (s line rest : Bytes) → read_line s ≡ some (line, rest) → length rest < length s
unfolding read_line
read_line-shorter [] line rest h = cc
read_line-shorter (c ∷ []) line rest h = cc
read_line-shorter (c ∷ d ∷ s) line rest h = elim (Option-cases (read_line (d ∷ s))) [
  | inl e ↦ ground arith
  | inr (p, e) ↦ ground (arith, read_line-shorter (d ∷ s) p.0 p.1 e)
]

pub read_line-append :
    (s more line rest : Bytes)
    → read_line s ≡ some (line, rest)
    → read_line (s ++ more) ≡ some (line, rest ++ more)
unfolding read_line
read_line-append [] more line rest h = cc
read_line-append (c ∷ []) more line rest h = cc
read_line-append (c ∷ d ∷ s) more line rest h = elim (Option-cases (read_line (d ∷ s))) [
  | inl e ↦ ground arith
  | inr (p, e) ↦ ground (arith, read_line-append (d ∷ s) more p.0 p.1 e)
]

skip_crlf-le : (s : Bytes) → length (skip_crlf s) ≤ length s
unfolding skip_crlf
skip_crlf-le [] = omega arith
skip_crlf-le (c ∷ []) = omega arith
skip_crlf-le (c ∷ d ∷ s) = ground arith

-- two bytes at hand settle the test
skip_crlf-append : (s more : Bytes) → 2 ≤ length s → skip_crlf (s ++ more) ≡ skip_crlf s ++ more
unfolding skip_crlf
skip_crlf-append [] more h = absurd (omega arith)
skip_crlf-append (c ∷ []) more h = absurd (omega arith)
skip_crlf-append (c ∷ d ∷ s) more h = ground arith

read_token-le :
    (n : ℕ) (s token rest : Bytes) → read_token n s ≡ some (token, rest) → length rest ≤ length s
unfolding read_token
read_token-le n s token rest h = ground (arith, skip_crlf-le (drop n s), length-drop {0} n s)

read_token-append :
    (n : ℕ) (s more token rest : Bytes)
    → read_token n s ≡ some (token, rest)
    → read_token n (s ++ more) ≡ some (token, rest ++ more)
unfolding read_token
read_token-append n s more token rest h = elim (Bool-cases (ltb (length s) (n + 2))) [
  | inl short ↦ ground arith
  | inr long ↦
      let fits : n + 2 ≤ length s = ground arith in
      ground (
        arith,
        length-append {0} s more,
        take-append {0} n s more (omega arith),
        drop-append {0} n s more (omega arith),
        skip_crlf-append (drop n s) more (omega (arith, length-drop {0} n s)),
      )
]

read_bulk-shorter :
    (s token rest : Bytes) → read_bulk s ≡ some (token, rest) → length rest < length s
unfolding read_bulk
read_bulk-shorter [] token rest h = cc
read_bulk-shorter (c ∷ s) token rest h = elim (Option-cases (read_line s)) [
  | inl e ↦ ground arith
  | inr (p, e) ↦
      ground (arith, read_line-shorter s p.0 p.1 e, read_token-le (bulk_len p.0) p.1 token rest)
]

read_bulk-append :
    (s more token rest : Bytes)
    → read_bulk s ≡ some (token, rest)
    → read_bulk (s ++ more) ≡ some (token, rest ++ more)
unfolding read_bulk
read_bulk-append [] more token rest h = cc
read_bulk-append (c ∷ s) more token rest h = elim (Option-cases (read_line s)) [
  | inl e ↦ ground arith
  | inr (p, e) ↦ ground (
    arith,
    read_line-append s more p.0 p.1 e,
    read_token-append (bulk_len p.0) p.1 more token rest,
  )
]

read_bulks-le :
    (n : ℕ) (s : Bytes) (tokens : List Bytes) (rest : Bytes)
    → read_bulks n s ≡ some (tokens, rest)
    → length rest ≤ length s
unfolding read_bulks
read_bulks-le zero s tokens rest h = ground arith
read_bulks-le (suc n) s tokens rest h = elim (Option-cases (read_bulk s)) [
  | inl e ↦ ground arith
  | inr (p, e) ↦ elim (Option-cases (read_bulks n p.1)) [
    | inl e' ↦ ground arith
    | inr (q, e') ↦ ground (arith, read_bulk-shorter s p.0 p.1 e, read_bulks-le n p.1 q.0 q.1 e')
  ]
]

read_bulks-append :
    (n : ℕ) (s more : Bytes) (tokens : List Bytes) (rest : Bytes)
    → read_bulks n s ≡ some (tokens, rest)
    → read_bulks n (s ++ more) ≡ some (tokens, rest ++ more)
unfolding read_bulks
read_bulks-append zero s more tokens rest h = ground arith
read_bulks-append (suc n) s more tokens rest h = elim (Option-cases (read_bulk s)) [
  | inl e ↦ ground arith
  | inr (p, e) ↦ elim (Option-cases (read_bulks n p.1)) [
    | inl e' ↦ ground arith
    | inr (q, e') ↦
        ground (arith, read_bulk-append s more p.0 p.1 e, read_bulks-append n p.1 more q.0 q.1 e')
  ]
]

-- the round leaves fewer bytes than `n`
abbrev pub Shrinks : ℕ → Round → Type 0
Shrinks n wait = Unit
Shrinks n (skip rest) = length rest < n
Shrinks n (emit cmd rest) = length rest < n

-- the round with more bytes at the end of the buffer
abbrev pub extend : Bytes → Round → Round
extend more wait = wait
extend more (skip rest) = skip (rest ++ more)
extend more (emit cmd rest) = emit cmd (rest ++ more)

read_array-Shrinks : (s : Bytes) → Shrinks (suc (length s)) (read_array s)
unfolding read_array read_command
read_array-Shrinks s = elim (Option-cases (read_line s)) [
  | inl e ↦ rw (e, read_array) tt
  | inr (p, e) ↦ elim (Option-cases (array_len p.0)) [
    | inl e' ↦ rw (e, read_array, e') (omega (arith, read_line-shorter s p.0 p.1 e))
    | inr (n, e') ↦ elim (Option-cases (read_bulks n p.1)) [
      | inl e'' ↦ rw (e, read_array, e', e'', read_command) tt
      | inr (q, e'') ↦
          rw (e, read_array, e', e'', read_command)
            (omega (arith, read_line-shorter s p.0 p.1 e, read_bulks-le n p.1 q.0 q.1 e''))
    ]
  ]
]

read_array-append :
    (s more : Bytes) → read_array s ≢ wait → read_array (s ++ more) ≡ extend more (read_array s)
unfolding read_array read_command
read_array-append s more h = elim (Option-cases (read_line s)) [
  | inl e ↦ ground arith
  | inr (p, e) ↦ elim (Option-cases (array_len p.0)) [
    | inl e' ↦ ground (arith, read_line-append s more p.0 p.1 e)
    | inr (n, e') ↦ elim (Option-cases (read_bulks n p.1)) [
      | inl e'' ↦ ground arith
      | inr (q, e'') ↦
          ground
            (arith, read_line-append s more p.0 p.1 e, read_bulks-append n p.1 more q.0 q.1 e'')
    ]
  ]
]

pub round-Shrinks : (s : Bytes) → Shrinks (length s) (round s)
unfolding round
round-Shrinks [] = tt
round-Shrinks (c ∷ s) = elim (Bool-cases (c == b'*')) [
  | inl e ↦ rw e (read_array-Shrinks s)
  | inr e ↦ rw e (omega arith)
]

-- A round that does not wait does the same when more bytes stand behind the buffer.
pub round-append : (s more : Bytes) → round s ≢ wait → round (s ++ more) ≡ extend more (round s)
unfolding round
round-append [] more h = absurd (h refl)
round-append (c ∷ s) more h = elim (Bool-cases (c == b'*')) [
  | inl e ↦ rw e (read_array-append s more (rw e at h))
  | inr e ↦ rw e
]
