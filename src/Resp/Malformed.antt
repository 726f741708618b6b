-- ===== src/Resp/Malformed.antt =====
-- What `Feed` does on a command that is not one: the branch `if (rb[pos] != '$') { ok = false; break; }`.
use redis_like.Base.{
  ℕ, zero, suc, ◌≤◌, ◌<◌, ◌≡◌, ◌≢◌, ◌∙◌, ap, List, [], ◌∷◌, ◌++◌, append_assoc, append-nil, arith,
  Bytes, length,
}
use redis_like.Text.{print_ℕ}
use redis_like.Resp.{
  crlf, read_bulk, read_bulks, read_array, read_command, concat, wait, round, feed_loop, feed,
}
use redis_like.Resp.Chunks.{feed_all, feed_loop-wait}
use redis_like.Resp.RoundTrip.{read_line-print_ℕ, array_len-print_ℕ}

-- the header of an array of `n` items, with a byte behind it
abbrev pub headed : ℕ → ℕ → Bytes → Bytes
headed n c rest = b'*' ∷ (print_ℕ n ++ (crlf ++ (c ∷ rest)))

round-headed :
    (n c : ℕ) (rest : Bytes) → 0 < n → n ≤ 256 → c ≢ b'$' → round (headed n c rest) ≡ wait
unfolding round
round-headed zero c rest h k l = absurd (omega arith)
round-headed (suc n) c rest h k l =
    rw (read_line-print_ℕ (suc n) (c ∷ rest), read_array, array_len-print_ℕ (suc n) h k)
      (unfold read_command read_bulks read_bulk in ground arith)

headed-append :
    (n c : ℕ) (rest bytes : Bytes) → headed n c rest ++ bytes ≡ headed n c (rest ++ bytes)
headed-append n c rest bytes = simp append_assoc

feed-headed :
    (n c : ℕ) (rest bytes : Bytes)
    → 0 < n
    → n ≤ 256
    → c ≢ b'$'
    → feed (headed n c rest) bytes ≡ ([], headed n c (rest ++ bytes))
feed-headed n c rest bytes h k l =
    unfold feed in
    ap (λ buf. feed_loop (length buf) buf) (headed-append n c rest bytes)
    ∙ feed_loop-wait (length (headed n c (rest ++ bytes))) (headed n c (rest ++ bytes))
        (round-headed n c (rest ++ bytes) h k l)

-- Behind an array header that counts 1 to 256 items, a byte other than `$` stops the connection: no
-- command is read any more, whatever comes in however many calls of `Feed`, and all of it is kept.
pub feed_all-headed :
    (n c : ℕ) (rest : Bytes) (pieces : List Bytes)
    → 0 < n
    → n ≤ 256
    → c ≢ b'$'
    → feed_all (headed n c rest) pieces ≡ ([], headed n c (rest ++ concat pieces))
unfolding feed_all concat
feed_all-headed n c rest [] h k l = rw append-nil
feed_all-headed n c rest (piece ∷ pieces) h k l = rw (
  feed-headed n c rest piece h k l,
  feed_all-headed n c (rest ++ piece) pieces h k l,
  append_assoc,
)
