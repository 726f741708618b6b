-- ===== src/Server/Host/Flush.antt =====
-- `FlushWriteBuf` of src/server.cpp keeps the event of its client, and loses no byte.
use mathlib.Core.Path.{subst}
use mathlib.Core.Logic.{◌⊎◌}
use redis_like.Base.{
  take, zero, suc, ◌++◌, ℕ, ◌≡◌, refl, sym, ◌∙◌, ap, Bool, true, false, not, some, [], ◌∷◌, ◌==◌,
  Bytes, is_empty, if◌then◌else◌, arith, inl, inr, Bool-cases, drop,
}
use redis_like.EventLoop.{EventLoop, event_of, modify_mask}
use redis_like.EventLoop.Told.{IsTold, modify_mask-IsTold, event_of-modify_mask}
use redis_like.Server.{Client}
use redis_like.Server.Host.{
  Callback, mask_for, watch, after_send, flush_write_buf, Sent, taken, failed,
}
use redis_like.Server.Host.Sound.{event_for}

-- a client that waits to write has something to write
abbrev pub IsPending : Client → Type 0
IsPending c = c.writable_mask ≡ true → is_empty c.write_buf ≡ false

-- A client, the loop before and the loop after: the client waits exactly where bytes are left, and its
-- event alone has changed.
pub record IsFlushed (fd : ℕ) (loop : EventLoop Callback) (r : Client × EventLoop Callback)
    : Type 0 where
  pub waiting : r.0.writable_mask ≡ not (is_empty r.0.write_buf)
  pub known : IsTold r.1
  pub others :
      (f : ℕ)
      → event_of f r.1.events
        ≡ (if fd == f then some (event_for fd r.0) else event_of f loop.events)

-- the event is there already
unchanged :
    (fd : ℕ) (c : Client) (loop : EventLoop Callback) (f : ℕ)
    → event_of fd loop.events ≡ some (event_for fd c)
    → event_of f loop.events ≡ (if fd == f then some (event_for fd c) else event_of f loop.events)
unchanged fd c loop f e = ground (arith, ap (λ n. event_of n loop.events))

watch_same :
    (wanted : Bool) (fd : ℕ) (c : Client) (loop : EventLoop Callback)
    → c.writable_mask ≡ wanted
    → watch wanted fd c loop ≡ (c, loop)
unfolding watch
watch_same true fd c loop m =
    ap
      (λ b.
        if b
        then (c, loop)
        else (record c { writable_mask = true }, modify_mask fd (mask_for true) loop))
      m
watch_same false fd c loop m =
    ap
      (λ b.
        if b
        then (record c { writable_mask = false }, modify_mask fd (mask_for false) loop)
        else (c, loop))
      m

watch_other :
    (wanted : Bool) (fd : ℕ) (c : Client) (loop : EventLoop Callback)
    → c.writable_mask ≡ not wanted
    → watch wanted fd c loop
      ≡ (record c { writable_mask = wanted }, modify_mask fd (mask_for wanted) loop)
unfolding watch
watch_other true fd c loop m =
    ap
      (λ b.
        if b
        then (c, loop)
        else (record c { writable_mask = true }, modify_mask fd (mask_for true) loop))
      m
watch_other false fd c loop m =
    ap
      (λ b.
        if b
        then (record c { writable_mask = false }, modify_mask fd (mask_for false) loop)
        else (c, loop))
      m

same_or_other : (a b : Bool) → (a ≡ b) ⊎ (a ≡ not b)
same_or_other true true = inl refl
same_or_other true false = inr refl
same_or_other false true = inr refl
same_or_other false false = inl refl

watch-IsFlushed :
    (wanted : Bool) (fd : ℕ) (c : Client) (loop : EventLoop Callback)
    → IsTold loop
    → event_of fd loop.events ≡ some (event_for fd c)
    → wanted ≡ not (is_empty c.write_buf)
    → IsFlushed fd loop (watch wanted fd c loop)
watch-IsFlushed wanted fd c loop t e w = elim (same_or_other c.writable_mask wanted) [
  | inl m ↦
      subst (IsFlushed fd loop) (sym (watch_same wanted fd c loop m))
        (record { waiting = m ∙ w; known = t; others = λ f. unchanged fd c loop f e })
  | inr m ↦
      let mask = mask_for wanted in
      subst (IsFlushed fd loop) (sym (watch_other wanted fd c loop m)) (record {
        waiting = w;
        known = modify_mask-IsTold fd mask loop t;
        others = λ f. event_of-modify_mask fd mask loop (event_for fd c) f e;
      })
]

after_send-IsFlushed :
    (sent : Sent) (fd : ℕ) (c : Client) (loop : EventLoop Callback)
    → IsTold loop
    → event_of fd loop.events ≡ some (event_for fd c)
    → is_empty c.write_buf ≡ false
    → IsFlushed fd loop (after_send sent fd c loop)
unfolding after_send
after_send-IsFlushed failed fd c loop t e some_left =
    watch-IsFlushed true fd c loop t e (ap not (sym some_left))
after_send-IsFlushed (taken n) fd c loop t e some_left =
    let left = drop n c.write_buf in
    watch-IsFlushed (not (is_empty left)) fd (record c { write_buf = left }) loop t e refl

pub flush_write_buf-IsFlushed :
    (send : Bytes → Sent) (fd : ℕ) (c : Client) (loop : EventLoop Callback)
    → IsTold loop
    → event_of fd loop.events ≡ some (event_for fd c)
    → IsPending c
    → IsFlushed fd loop (flush_write_buf send fd c loop)
unfolding flush_write_buf
flush_write_buf-IsFlushed send fd c loop t e p = elim (Bool-cases (is_empty c.write_buf)) [
  | inl b ↦
      subst (IsFlushed fd loop)
        (sym (ap (λ b. if b then (c, loop) else after_send (send c.write_buf) fd c loop) b))
        (record {
          waiting = idle c.writable_mask (is_empty c.write_buf) p b;
          known = t;
          others = λ f. unchanged fd c loop f e;
        })
  | inr b ↦
      subst (IsFlushed fd loop)
        (sym (ap (λ b. if b then (c, loop) else after_send (send c.write_buf) fd c loop) b))
        (after_send-IsFlushed (send c.write_buf) fd c loop t e b)
]
  where
    idle : (m b : Bool) → (m ≡ true → b ≡ false) → b ≡ true → m ≡ not b
    idle m b p e = ground (arith, p)

-- the bytes that `send` has taken
abbrev pub sent_bytes : Sent → Bytes → Bytes
sent_bytes failed buf = []
sent_bytes (taken n) buf = take n buf

take-drop : (n : ℕ) (buf : Bytes) → take n buf ++ drop n buf ≡ buf
take-drop zero buf = refl
take-drop (suc n) [] = refl
take-drop (suc n) (x ∷ buf) = ap (λ l. x ∷ l) (take-drop n buf)

write_buf-watch :
    (wanted : Bool) (fd : ℕ) (c : Client) (loop : EventLoop Callback)
    → (watch wanted fd c loop).0.write_buf ≡ c.write_buf
write_buf-watch wanted fd c loop = elim (same_or_other c.writable_mask wanted) [
  | inl m ↦ ap (λ r. r.0.write_buf) (watch_same wanted fd c loop m)
  | inr m ↦ ap (λ r. r.0.write_buf) (watch_other wanted fd c loop m)
]

after_send-bytes :
    (sent : Sent) (fd : ℕ) (c : Client) (loop : EventLoop Callback)
    → sent_bytes sent c.write_buf ++ (after_send sent fd c loop).0.write_buf ≡ c.write_buf
unfolding after_send
after_send-bytes failed fd c loop = write_buf-watch true fd c loop
after_send-bytes (taken n) fd c loop =
    let left = drop n c.write_buf in
    ap (λ buf. take n c.write_buf ++ buf)
      (write_buf-watch (not (is_empty left)) fd (record c { write_buf = left }) loop)
    ∙ take-drop n c.write_buf

idle_bytes : (sent : Sent) (buf : Bytes) → is_empty buf ≡ true → sent_bytes sent buf ++ buf ≡ buf
idle_bytes failed buf e = refl
idle_bytes (taken zero) buf e = refl
idle_bytes (taken (suc n)) [] e = refl
idle_bytes (taken (suc n)) (x ∷ buf) e = cc

pub flush_write_buf-bytes :
    (send : Bytes → Sent) (fd : ℕ) (c : Client) (loop : EventLoop Callback)
    → sent_bytes (send c.write_buf) c.write_buf ++ (flush_write_buf send fd c loop).0.write_buf
      ≡ c.write_buf
unfolding flush_write_buf
flush_write_buf-bytes send fd c loop = elim (Bool-cases (is_empty c.write_buf)) [
  | inl b ↦
      ap (λ b. sent_bytes (send c.write_buf) c.write_buf ++ (flushed b).0.write_buf) b
      ∙ idle_bytes (send c.write_buf) c.write_buf b
  | inr b ↦
      ap (λ b. sent_bytes (send c.write_buf) c.write_buf ++ (flushed b).0.write_buf) b
      ∙ after_send-bytes (send c.write_buf) fd c loop
]
  where
    flushed : Bool → Client × EventLoop Callback
    flushed b = if b then (c, loop) else after_send (send c.write_buf) fd c loop

-- `FlushWriteBuf` of a client whose event has the mask that the client knows, and who waits to write
-- only where bytes are left: the loop then waits to write exactly where bytes are left and the client
-- knows it, the events of the others are as they were, and no byte is lost or repeated: what `send` has
-- taken and what is left are the buffer.
pub flush_write_buf_lem :
    (send : Bytes → Sent) (fd : ℕ) (c : Client) (loop : EventLoop Callback)
    → IsTold loop
    → event_of fd loop.events ≡ some (event_for fd c)
    → IsPending c
    → IsFlushed fd loop (flush_write_buf send fd c loop)
      × (sent_bytes (send c.write_buf) c.write_buf ++ (flush_write_buf send fd c loop).0.write_buf
          ≡ c.write_buf)
flush_write_buf_lem send fd c loop t e p =
    (flush_write_buf-IsFlushed send fd c loop t e p, flush_write_buf-bytes send fd c loop)
