-- ===== src/Server/Host/Drains.antt =====
-- What becomes of a client of src/server.cpp when its socket takes bytes, whatever the others do.
use mathlib.Core.Path.{subst}
use redis_like.Base.{
  ℕ, suc, ◌-◌, ◌≤◌, ◌≡◌, refl, sym, ◌∙◌, ap, Bool, true, false, not, ◌&&◌, Option, none, some, List,
  [], ◌∷◌, ◌==◌, ◌%◌, Bytes, is_empty, length, if◌then◌else◌, arith, inl, inr, Bool-cases,
  Option-cases,
}
use redis_like.Server.{Client, on_bytes}
use redis_like.Server.Host.{
  System, Host, serves, client_of, flush_write_buf, answer, on_readable, on_client_event, call,
}
use redis_like.Server.Host.Sound.{Rests}
use redis_like.Server.Host.Keeps.{IsSoundHost}
use redis_like.Server.Host.Calls.{on_client_event-IsSound}
use redis_like.Server.Host.Nearer.{
  emptied, final, size, IsNearer, Takes, flush_write_buf-IsNearer, client_of-close_client,
  client_of-settle,
}

-- the rounds: a callback for a socket, with its mask, each
unfoldable pub run_events : System → List (ℕ × ℕ) → Host → Host
run_events system [] h = h
run_events system ((fd, mask) ∷ es) h = run_events system es (call system (serves fd) mask h)

-- the events of a socket among them
abbrev pub rounds_of : ℕ → List (ℕ × ℕ) → ℕ
rounds_of fd [] = 0
rounds_of fd ((g, mask) ∷ es) = if g == fd then suc (rounds_of fd es) else rounds_of fd es

-- those of the socket are not for reading
abbrev pub OnlyWritable : ℕ → List (ℕ × ℕ) → Type 0
OnlyWritable fd [] = Unit
OnlyWritable fd ((g, mask) ∷ es) = ((g == fd) ≡ true → (mask % 2 == 1) ≡ false) × OnlyWritable fd es

client_of-answer_other :
    (system : System) (fd f : ℕ) (c : Client) (h : Host)
    → (fd == f) ≡ false
    → client_of f (answer system fd c h).clients ≡ client_of f h.clients
unfolding answer
client_of-answer_other system fd f c h e =
    client_of-settle fd f (flush_write_buf (system.send h.moment fd) fd c h.loop) h ∙ rw e refl

client_of-on_readable_other :
    (system : System) (fd f : ℕ) (o : Option Bytes) (c : Client) (h : Host)
    → (fd == f) ≡ false
    → client_of f (on_readable system fd o c h).clients ≡ client_of f h.clients
unfolding on_readable
client_of-on_readable_other system fd f none c h e = client_of-close_client fd f h ∙ rw e refl
client_of-on_readable_other system fd f (some bytes) c h e =
    let (server, c') = on_bytes (system.clock h.moment) 0 bytes h.server c in
    client_of-answer_other system fd f c' (record h { server = server }) e

-- a callback of another socket leaves the client
pub client_of-call_other :
    (system : System) (fd f mask : ℕ) (h : Host)
    → (fd == f) ≡ false
    → client_of f (call system (serves fd) mask h).clients ≡ client_of f h.clients
unfolding call on_client_event
client_of-call_other system fd f mask h e = elim (Option-cases (client_of fd h.clients)) [
  | inl n ↦ rw (on_client_event, n) refl
  | inr (c, n) ↦
      rw (on_client_event, n)
        (elim (Bool-cases (mask % 2 == 1)) [
          | inl b ↦ rw b (client_of-on_readable_other system fd f (system.recv h.moment fd) c h e)
          | inr b ↦ rw b (client_of-answer_other system fd f c h e)
        ])
]

-- a round of the socket that finds the client
pub client_of-call_own :
    (system : System) (fd mask : ℕ) (c : Client) (h : Host)
    → (mask % 2 == 1) ≡ false
    → client_of fd h.clients ≡ some c
    → let d = (flush_write_buf (system.send h.moment fd) fd c h.loop).0 in
      client_of fd (call system (serves fd) mask h).clients
      ≡ (if d.close_after_write && is_empty d.write_buf then none else some d)
unfolding call on_client_event answer
client_of-call_own system fd mask c h b e =
    rw (on_client_event, e)
      (rw b (
        client_of-settle fd fd (flush_write_buf (system.send h.moment fd) fd c h.loop) h
        ∙ ground arith))

-- a round of the socket that finds none
pub client_of-call_gone :
    (system : System) (fd mask : ℕ) (h : Host)
    → client_of fd h.clients ≡ none
    → client_of fd (call system (serves fd) mask h).clients ≡ none
unfolding call on_client_event
client_of-call_gone system fd mask h e = rw (on_client_event, e) e

-- what a round leaves is nearer to what is to become of the client
final-nearer :
    (c d : Client)
    → IsNearer c d
    → let o = if d.close_after_write && is_empty d.write_buf then none else some d in
      (final o ≡ final (some c)) × (size o ≤ size (some c) - 1)
final-nearer c d n = elim (Bool-cases (d.close_after_write && is_empty d.write_buf)) [
  | inl t ↦ rw t (closes c.close_after_write (is_true n t), omega arith)
  | inr t ↦ rw t (
    ap (λ b. if b then none else some (emptied d)) n.quits
        ∙ ap (λ e. if c.close_after_write then none else some e) n.same,
    n.fewer,
  )
]
  where
    is_true :
        IsNearer c d
        → (d.close_after_write && is_empty d.write_buf) ≡ true
        → c.close_after_write ≡ true
    is_true n t = sym n.quits ∙ ground arith

    closes : (b : Bool) → b ≡ true → none ≡ (if b then none else some (emptied c))
    closes b e = rw e refl

-- a client with nothing left that rests
idle-final : (c : Client) → Rests c → length c.write_buf ≡ 0 → some c ≡ final (some c)
idle-final c r e =
    idle c.read_buf c.write_buf c.close_after_write c.writable_mask e r.waiting r.unfinished
  where
    idle :
        (read write : Bytes) (quits mask : Bool)
        → length write ≡ 0
        → mask ≡ not (is_empty write)
        → (quits && is_empty write) ≡ false
        → ◌≡◌ {A = Option Client}
            (some (record {
              read_buf = read;
              write_buf = write;
              close_after_write = quits;
              writable_mask = mask;
            }))
            (if quits
              then none
              else some (record {
                read_buf = read;
                write_buf = [];
                close_after_write = quits;
                writable_mask = false;
              }))
    idle read (x ∷ write) quits mask e w u = cc
    idle read [] true mask e w u = cc
    idle read [] false mask e w u =
        ap
          (λ m. some (record {
            read_buf = read;
            write_buf = [];
            close_after_write = false;
            writable_mask = m;
          }))
          w

pub call-IsSound :
    (system : System) (fd mask : ℕ) (h : Host)
    → IsSoundHost h
    → IsSoundHost (call system (serves fd) mask h)
unfolding call
call-IsSound system fd mask h s = on_client_event-IsSound system fd mask h s

-- a round of the socket, whether the client is there or not
round_of :
    (system : System) (fd mask : ℕ) (o : Option Client) (h : Host)
    → Takes system fd
    → (mask % 2 == 1) ≡ false
    → client_of fd h.clients ≡ o
    → let o' = client_of fd (call system (serves fd) mask h).clients in
      (final o' ≡ final o) × (size o' ≤ size o - 1)
round_of system fd mask none h t b e =
    rw (client_of-call_gone system fd mask h e) (refl, omega arith)
round_of system fd mask (some c) h t b e = rw (client_of-call_own system fd mask c h b e) (
    final-nearer c (flush_write_buf (system.send h.moment fd) fd c h.loop).0
      (flush_write_buf-IsNearer system h.moment fd c h.loop t))

pub round_at :
    (system : System) (g fd mask : ℕ) (o : Option Client) (h : Host)
    → g ≡ fd
    → Takes system fd
    → (mask % 2 == 1) ≡ false
    → client_of fd h.clients ≡ o
    → let o' = client_of fd (call system (serves g) mask h).clients in
      (final o' ≡ final o) × (size o' ≤ size o - 1)
round_at system g fd mask o h same t b e =
    subst
      (λ g.
        let o' = client_of fd (call system (serves g) mask h).clients in
        (final o' ≡ final o) × (size o' ≤ size o - 1))
      (sym same) (round_of system fd mask o h t b e)

pub one_less : {a b n : ℕ} → a ≤ suc n → b ≤ a - 1 → b ≤ n
one_less h k = omega arith

final-run_events :
    (system : System) (fd : ℕ) (es : List (ℕ × ℕ)) (o : Option Client) (h : Host)
    → Takes system fd
    → OnlyWritable fd es
    → IsSoundHost h
    → client_of fd h.clients ≡ o
    → size o ≤ rounds_of fd es
    → client_of fd (run_events system es h).clients ≡ final o
unfolding run_events
final-run_events system fd [] none h t w s e n = e
final-run_events system fd [] (some c) h t w s e n = e ∙ idle-final c (s.rests fd c e) (omega arith)
final-run_events system fd ((g, mask) ∷ es) o h t w s e n =
    let h' = call system (serves g) mask h in
    let s' = call-IsSound system g mask h s in
    elim (Bool-cases (g == fd)) [
      | inr b ↦
          final-run_events system fd es o h' t w.1 s'
            (client_of-call_other system g fd mask h b ∙ e) (rw b at n)
      | inl b ↦
          let o' = client_of fd h'.clients in
          let (kept, fewer) = round_at system g fd mask o h (ground arith) t (w.0 b) e in
          final-run_events system fd es o' h' t w.1 s' refl (one_less (rw b at n) fewer) ∙ kept
    ]

-- the client after the callbacks
pub client_of-run_events :
    (system : System) (fd : ℕ) (es : List (ℕ × ℕ)) (c : Client) (h : Host)
    → Takes system fd
    → OnlyWritable fd es
    → IsSoundHost h
    → client_of fd h.clients ≡ some c
    → length c.write_buf ≤ rounds_of fd es
    → client_of fd (run_events system es h).clients
      ≡ (if c.close_after_write then none else some (emptied c))
client_of-run_events system fd es c h t w s e n = final-run_events system fd es (some c) h t w s e n
