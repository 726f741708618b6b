-- ===== src/Aof/Replay.antt =====
-- What is appended to the log is what a replay of the log reads.
use redis_like.Base.{
  ◌<◌, ◌≡◌, refl, sym, ◌∙◌, ap, true, List, [], ◌∷◌, ◌++◌, append_assoc, append-nil, arith, map,
  Bytes, length, length-append, ◌≢◌, inl, inr, ◌⊎◌, All,
}
use redis_like.Resp.{
  RespCommand, Round, emit, round, after_round, feed_loop, feed, array, concat, wait, skip,
}
use redis_like.Resp.Chunks.{feed_loop-fuel, feed_loop-wait}
use redis_like.Resp.Rounds.{extend, round-append}
use redis_like.Resp.RoundTrip.{round-array}
use redis_like.Resp.Sizes.{IsSmall}
use redis_like.Aof.{AofLogger, open_log, append, call_all, replay, serialize, append_to_aof}

-- at most 255 arguments, and no token of 2 ^ 63 bytes
abbrev pub IsLoggable : RespCommand → Type 0
IsLoggable cmd = IsSmall cmd

round-serialize :
    (cmd : RespCommand) (rest : Bytes)
    → IsLoggable cmd
    → round (serialize cmd ++ rest) ≡ emit cmd rest
unfolding serialize
round-serialize cmd rest h = round-array cmd.name cmd.args rest h.1 h.0

feed_loop-emit :
    (s : Bytes) (cmd : RespCommand) (rest : Bytes)
    → round s ≡ emit cmd rest
    → length rest < length s
    → feed_loop (length s) s
      ≡ (cmd ∷ (feed_loop (length rest) rest).0, (feed_loop (length rest) rest).1)
unfolding after_round
feed_loop-emit [] cmd rest e h = absurd (omega arith)
feed_loop-emit (c ∷ s) cmd rest e h =
    unfold feed_loop in
    ap (after_round (feed_loop (length s)) (c ∷ s)) e
    ∙ ap (λ (p : List RespCommand × Bytes). (cmd ∷ p.0, p.1))
        (feed_loop-fuel (length s) (length rest) rest (omega arith) (omega arith))

serialize-shorter :
    (cmd : RespCommand) (rest : Bytes) → length rest < length (serialize cmd ++ rest)
unfolding serialize array
serialize-shorter cmd rest = omega (arith, length-append {0} (serialize cmd) rest)

-- one command in front
feed-serialize :
    (cmd : RespCommand) (rest : Bytes)
    → IsLoggable cmd
    → feed [] (serialize cmd ++ rest) ≡ (cmd ∷ (feed [] rest).0, (feed [] rest).1)
unfolding feed
feed-serialize cmd rest h =
    feed_loop-emit (serialize cmd ++ rest) cmd rest (round-serialize cmd rest h)
      (serialize-shorter cmd rest)

-- the appends one after the other
unfoldable pub append_all : AofLogger → List RespCommand → AofLogger
append_all log [] = log
append_all log (cmd ∷ cmds) = append_all (append_to_aof log cmd) cmds

pub file-append_all :
    (log : AofLogger) (cmds : List RespCommand)
    → log.is_open ≡ true
    → (append_all log cmds).file ≡ log.file ++ concat (map serialize cmds)
unfolding append_all concat
file-append_all log [] h = sym (append-nil _)
file-append_all log (cmd ∷ cmds) h =
    file-append_all (append_to_aof log cmd) cmds (unfold append_to_aof append in rw h)
    ∙ unfold append_to_aof append in rw (h, append_assoc)

feed-concat :
    (cmds : List RespCommand) (tail : Bytes)
    → All IsLoggable cmds
    → feed [] (concat (map serialize cmds) ++ tail) ≡ (cmds ++ (feed [] tail).0, (feed [] tail).1)
unfolding concat
feed-concat [] tail h = refl
feed-concat (cmd ∷ cmds) tail h = rw append_assoc (
    feed-serialize cmd (concat (map serialize cmds) ++ tail) h.0
    ∙ ap (λ (p : List RespCommand × Bytes). (cmd ∷ p.0, p.1)) (feed-concat cmds tail h.1))

-- a round that leaves something of bytes that come later has not read them
extend-emit :
    (more : Bytes) (r : Round) (cmd : RespCommand)
    → more ≢ []
    → extend more r ≡ emit cmd []
    → r ≡ wait
extend-emit more wait cmd h e = refl
extend-emit more (skip rest) cmd h e = cc
extend-emit [] (emit c rest) cmd h e = absurd (h refl)
extend-emit (m ∷ more) (emit c []) cmd h e = cc
extend-emit (m ∷ more) (emit c (r ∷ rest)) cmd h e = cc

wait-cases : (r : Round) → (r ≡ wait) ⊎ (r ≢ wait)
wait-cases wait = inl refl
wait-cases (skip rest) = inr (λ e. cc)
wait-cases (emit cmd rest) = inr (λ e. cc)

-- a command that lacks its last bytes is not read
round-torn :
    (cmd : RespCommand) (torn rest : Bytes)
    → IsLoggable cmd
    → serialize cmd ≡ torn ++ rest
    → rest ≢ []
    → round torn ≡ wait
round-torn cmd torn rest h e k = elim (wait-cases (round torn)) [
  | inl w ↦ w
  | inr w ↦ extend-emit rest (round torn) cmd k (
      sym (round-append torn rest w)
      ∙ ap round (sym e)
      ∙ rw append-nil at (round-serialize cmd [] h))
]

feed-torn :
    (cmd : RespCommand) (torn rest : Bytes)
    → IsLoggable cmd
    → serialize cmd ≡ torn ++ rest
    → rest ≢ []
    → (feed [] torn).0 ≡ []
unfolding feed
feed-torn cmd torn rest h e k =
    ap (λ (p : List RespCommand × Bytes). p.0)
      (feed_loop-wait (length torn) torn (round-torn cmd torn rest h e k))

-- the file of the theorem
file-open_log :
    (log : AofLogger) (cmds : List RespCommand) (torn : Bytes)
    → log.file ≡ []
    → (append_all (open_log log) cmds).file ++ torn ≡ concat (map serialize cmds) ++ torn
unfolding open_log
file-open_log log cmds torn e = rw (file-append_all (open_log log) cmds refl) (rw e)

-- A log is opened on an empty file, commands are appended to it, and the write of one more stops
-- before its last byte; each has at most 255 arguments and tokens that an `int64_t` can measure. A
-- replay of the file makes the callbacks of the complete commands, in their order, and no other,
-- and counts them.
pub replay-append_all {ℓ} :
    {S : Type ℓ} (callback : S → RespCommand → S) (s : S) (log : AofLogger)
    (cmds : List RespCommand) (last : RespCommand) (torn rest : Bytes)
    → log.file ≡ []
    → All IsLoggable cmds
    → IsLoggable last
    → serialize last ≡ torn ++ rest
    → rest ≢ []
    → replay callback ((append_all (open_log log) cmds).file ++ torn) s
      ≡ (length cmds, call_all callback cmds s)
unfolding replay
replay-append_all callback s log cmds last torn rest empty h k e more =
    ap (λ fed. (length fed, call_all callback fed s))
      (ap (λ file. (feed [] file).0) (file-open_log log cmds torn empty)
        ∙ ap (λ (p : List RespCommand × Bytes). p.0) (feed-concat cmds torn h)
        ∙ ap (λ fed. cmds ++ fed) (feed-torn last torn rest k e more)
        ∙ append-nil cmds)
