-- ===== src/Server/Host/Delivered.antt =====
-- The bytes that a client of src/server.cpp gets, when its socket takes bytes.
use mathlib.Core.Path.{subst}
use redis_like.Base.{
  ℕ, ◌≤◌, ◌≡◌, refl, sym, ◌∙◌, ap, Bool, true, false, ◌&&◌, Option, none, some, List, [], ◌∷◌, ◌++◌,
  ◌==◌, ◌%◌, Bytes, is_empty, length, if◌then◌else◌, arith, inl, inr, Bool-cases,
}
use redis_like.Server.{Client}
use redis_like.Server.Host.{System, Host, serves, client_of, flush_write_buf, call}
use redis_like.Server.Host.Flush.{sent_bytes, flush_write_buf-bytes}
use redis_like.Server.Host.Keeps.{IsSoundHost}
use redis_like.Server.Host.Nearer.{emptied, size, Takes}
use redis_like.Server.Host.Drains.{
  run_events, rounds_of, OnlyWritable, client_of-call_other, client_of-call_own,
  client_of-call_gone, round_at, one_less, client_of-run_events,
}

-- the bytes that `send` takes of a client, if it is there
abbrev taken_of : System → ℕ → ℕ → Option Client → Bytes
taken_of system m fd none = []
taken_of system m fd (some c) = sent_bytes (system.send m fd c.write_buf) c.write_buf

-- the bytes that `send` takes on a socket while the callbacks run, where those of the socket are for
-- writing
abbrev pub sent_to : System → ℕ → List (ℕ × ℕ) → Host → Bytes
sent_to system fd [] h = []
sent_to system fd ((g, mask) ∷ es) h =
    (if g == fd then taken_of system h.moment fd (client_of fd h.clients) else [])
    ++ sent_to system fd es (call system (serves g) mask h)

abbrev buffer_of : Option Client → Bytes
buffer_of none = []
buffer_of (some c) = c.write_buf

nothing_left : (o : Option Client) → size o ≤ 0 → [] ≡ buffer_of o
nothing_left none h = refl
nothing_left (some c) h = none_left c.write_buf h
  where
    none_left : (s : Bytes) → length s ≤ 0 → [] ≡ s
    none_left [] h = refl
    none_left (x ∷ s) h = absurd (omega (arith, h))

-- a client that is closed has no bytes left
buffer_of-closed :
    (d : Client)
    → buffer_of (if d.close_after_write && is_empty d.write_buf then none else some d) ≡ d.write_buf
buffer_of-closed d = closed d.close_after_write d.write_buf
  where
    closed :
        (quits : Bool) (s : Bytes)
        → buffer_of (if quits && is_empty s then none else some (record d { write_buf = s })) ≡ s
    closed true [] = refl
    closed true (x ∷ s) = refl
    closed false s = refl

-- what a round sends and what it leaves are the buffer
round_sent :
    (system : System) (fd mask : ℕ) (o : Option Client) (h : Host)
    → (mask % 2 == 1) ≡ false
    → client_of fd h.clients ≡ o
    → taken_of system h.moment fd o
        ++ buffer_of (client_of fd (call system (serves fd) mask h).clients)
      ≡ buffer_of o
round_sent system fd mask none h b e = ap buffer_of (client_of-call_gone system fd mask h e)
round_sent system fd mask (some c) h b e =
    let d = (flush_write_buf (system.send h.moment fd) fd c h.loop).0 in
    ap (λ s. taken_of system h.moment fd (some c) ++ s)
      (ap buffer_of (client_of-call_own system fd mask c h b e) ∙ buffer_of-closed d)
    ∙ flush_write_buf-bytes (system.send h.moment fd) fd c h.loop

sent_to-buffer_of :
    (system : System) (fd : ℕ) (es : List (ℕ × ℕ)) (o : Option Client) (h : Host)
    → Takes system fd
    → OnlyWritable fd es
    → client_of fd h.clients ≡ o
    → size o ≤ rounds_of fd es
    → sent_to system fd es h ≡ buffer_of o
sent_to-buffer_of system fd [] o h t w e n = nothing_left o n
sent_to-buffer_of system fd ((g, mask) ∷ es) o h t w e n =
    let h' = call system (serves g) mask h in
    elim (Bool-cases (g == fd)) [
      | inr b ↦ rw b (
          sent_to-buffer_of system fd es o h' t w.1 (client_of-call_other system g fd mask h b ∙ e)
            (rw b at n))
      | inl b ↦
          let same : g ≡ fd = ground arith in
          let o' = client_of fd h'.clients in
          let (kept, fewer) = round_at system g fd mask o h same t (w.0 b) e in
          let rest = sent_to-buffer_of system fd es o' h' t w.1 refl (one_less (rw b at n) fewer) in
          rw b (
            ap (λ s. taken_of system h.moment fd (client_of fd h.clients) ++ s) rest
            ∙ ap (λ x. taken_of system h.moment fd x ++ buffer_of o') e
            ∙ subst
                (λ g.
                  taken_of system h.moment fd o
                    ++ buffer_of (client_of fd (call system (serves g) mask h).clients)
                  ≡ buffer_of o)
                (sym same) (round_sent system fd mask o h (w.0 b) e))
    ]

-- The callbacks of a list run one after the other on a server that is in step, those of one socket only
-- for writing, and every `send` on it takes a byte at least. If they come to it as often as bytes are
-- left for its client, then `send` has taken on it just these bytes, each once and in their order, and
-- the client does not wait to write any more; a client that has asked to quit is closed then. The others
-- may do anything in between.
pub run_events_lem :
    (system : System) (fd : ℕ) (es : List (ℕ × ℕ)) (c : Client) (h : Host)
    → Takes system fd
    → OnlyWritable fd es
    → IsSoundHost h
    → client_of fd h.clients ≡ some c
    → length c.write_buf ≤ rounds_of fd es
    → (sent_to system fd es h ≡ c.write_buf)
      × (client_of fd (run_events system es h).clients
          ≡ (if c.close_after_write then none else some (emptied c)))
run_events_lem system fd es c h t w s e n = (
  sent_to-buffer_of system fd es (some c) h t w e n,
  client_of-run_events system fd es c h t w s e n,
)
