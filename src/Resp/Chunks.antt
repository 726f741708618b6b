-- ===== src/Resp/Chunks.antt =====
-- `Feed` reads the same commands however the stream of bytes is cut into calls.
use redis_like.Base.{
  ℕ, zero, suc, ◌≤◌, ◌<◌, ◌≡◌, refl, sym, ◌∙◌, ap, List, [], ◌∷◌, ◌++◌, arith, append_assoc,
  append-nil, Bytes, length, length-append,
}
use redis_like.Resp.{
  RespCommand, Round, wait, skip, emit, round, after_round, feed_loop, feed, concat,
}
use redis_like.Resp.Rounds.{Shrinks, extend, round-Shrinks, round-append}

-- two ways to go on that agree on shorter buffers
after_round_congr :
    (next other : Bytes → List RespCommand × Bytes) (s : Bytes) (r : Round)
    → ((t : Bytes) → length t < length s → next t ≡ other t)
    → Shrinks (length s) r
    → after_round next s r ≡ after_round other s r
unfolding after_round
after_round_congr next other s wait agree h = refl
after_round_congr next other s (skip t) agree h = agree t h
after_round_congr next other s (emit cmd t) agree h = rw (agree t h)

-- The bound on the rounds is never met: any larger one gives the same result.
pub feed_loop-fuel :
    (f g : ℕ) (s : Bytes) → length s ≤ f → length s ≤ g → feed_loop f s ≡ feed_loop g s
unfolding feed_loop
feed_loop-fuel zero zero s p q = refl
feed_loop-fuel zero (suc g) [] p q = refl
feed_loop-fuel zero (suc g) (c ∷ s) p q = absurd (omega arith)
feed_loop-fuel (suc f) zero [] p q = refl
feed_loop-fuel (suc f) zero (c ∷ s) p q = absurd (omega arith)
feed_loop-fuel (suc f) (suc g) s p q =
    after_round_congr (feed_loop f) (feed_loop g) s (round s)
      (λ t h. feed_loop-fuel f g t (omega arith) (omega arith)) (round-Shrinks s)

pub feed_loop-wait : (fuel : ℕ) (s : Bytes) → round s ≡ wait → feed_loop fuel s ≡ ([], s)
unfolding feed_loop after_round
feed_loop-wait zero s e = refl
feed_loop-wait (suc fuel) s e = rw e

-- the commands of one call in front of those of the next call, on the buffer that the first left
abbrev pub then_feed : List RespCommand × Bytes → Bytes → List RespCommand × Bytes
then_feed (cmds, buf) bytes = let (cmds', buf') = feed buf bytes in (cmds ++ cmds', buf')

abbrev FeedsOn : ℕ → ℕ → Bytes → Bytes → Type 0
FeedsOn f g a b = feed_loop g (a ++ b) ≡ then_feed (feed_loop f a) b

-- one round in front of loops that feed on
round-FeedsOn :
    (f g : ℕ) (a b : Bytes) (r : Round)
    → length (a ++ b) ≤ suc g
    → round a ≡ r
    → Shrinks (length a) r
    → ((t : Bytes) → length t < length a → FeedsOn f g t b)
    → FeedsOn (suc f) (suc g) a b
unfolding feed after_round
round-FeedsOn f g a b wait q e h ih =
    feed_loop-fuel (suc g) (length (a ++ b)) (a ++ b) q (omega arith)
    ∙ sym (unfold feed_loop in ap (λ r. then_feed (after_round (feed_loop f) a r) b) e)
round-FeedsOn f g a b (skip t) q e h ih =
    unfold feed_loop in
    ap (after_round (feed_loop g) (a ++ b)) (round-append a b (λ w. cc (e, w)) ∙ ap (extend b) e)
    ∙ ih t h
    ∙ sym (ap (λ r. then_feed (after_round (feed_loop f) a r) b) e)
round-FeedsOn f g a b (emit cmd t) q e h ih =
    unfold feed_loop in
    ap (after_round (feed_loop g) (a ++ b)) (round-append a b (λ w. cc (e, w)) ∙ ap (extend b) e)
    ∙ ap (λ (p : List RespCommand × Bytes). (cmd ∷ p.0, p.1)) (ih t h)
    ∙ sym (ap (λ r. then_feed (after_round (feed_loop f) a r) b) e)

feed_loop-FeedsOn : (f g : ℕ) (a b : Bytes) → length a ≤ f → length (a ++ b) ≤ g → FeedsOn f g a b
feed_loop-FeedsOn zero g [] b p q =
    unfold feed feed_loop in feed_loop-fuel g (length b) b q (omega arith)
feed_loop-FeedsOn zero g (c ∷ a) b p q = absurd (omega arith)
feed_loop-FeedsOn (suc f) zero [] b p q =
    unfold feed feed_loop in feed_loop-fuel zero (length b) b q (omega arith)
feed_loop-FeedsOn (suc f) zero (c ∷ a) b p q = absurd (omega arith)
feed_loop-FeedsOn (suc f) (suc g) a b p q =
    round-FeedsOn f g a b (round a) q refl (round-Shrinks a) λ t h.
      feed_loop-FeedsOn f g t b (omega arith)
        (omega (arith, length-append {0} t b, length-append {0} a b))

-- Feeding two pieces of a stream in one call, or in two calls with the buffer that the first call
-- leaves, gives the same commands and the same buffer.
pub feed-append : (buf a b : Bytes) → feed buf (a ++ b) ≡ then_feed (feed buf a) b
feed-append buf a b =
    unfold feed in
    rw (sym (append_assoc buf a b)) (
      feed_loop-FeedsOn (length (buf ++ a)) (length ((buf ++ a) ++ b)) (buf ++ a) b (omega arith)
        (omega arith))

-- a connection that receives its bytes in the given pieces, one call of `Feed` for each
unfoldable pub feed_all : Bytes → List Bytes → List RespCommand × Bytes
unfolding feed
feed_all buf [] = ([], buf)
feed_all buf (piece ∷ pieces) =
    let (cmds, buf') = feed buf piece in
    let (cmds', buf'') = feed_all buf' pieces in (cmds ++ cmds', buf'')

-- However a stream is cut into one or more calls of `Feed`, the commands that come out one after
-- the other and the buffer at the end are those of a single call with the whole stream.
pub feed_all-concat :
    (buf piece : Bytes) (pieces : List Bytes)
    → feed_all buf (piece ∷ pieces) ≡ feed buf (concat (piece ∷ pieces))
unfolding feed_all concat
feed_all-concat buf piece [] = simp append-nil
feed_all-concat buf piece (q ∷ pieces) =
    ap (λ (p : List RespCommand × Bytes). ((feed buf piece).0 ++ p.0, p.1))
      (feed_all-concat (feed buf piece).1 q pieces)
    ∙ sym (feed-append buf piece (concat (q ∷ pieces)))
