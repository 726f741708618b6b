-- ===== src/Server/Host/Nearer.antt =====
-- What a round of `FlushWriteBuf` of src/server.cpp leaves to be written, where its socket takes bytes.
use mathlib.Core.Path.{subst}
use redis_like.Base.{
  ℕ, suc, ◌-◌, ◌≤◌, ◌≡◌, refl, sym, ◌∙◌, ap, Bool, true, false, not, ◌&&◌, Option, none, some, [],
  ◌∷◌, ◌==◌, Bytes, is_empty, length, length-drop, drop, if◌then◌else◌, arith, inl, inr, Bool-cases,
}
use redis_like.EventLoop.{EventLoop}
use redis_like.Server.{Client}
use redis_like.Server.Host.{
  Callback, System, Host, client_of, put_client, watch, after_send, flush_write_buf, close_client,
  settle, taken,
}
use redis_like.Server.Host.Sound.{client_of-put_client, client_of-erase_client}

-- the client with nothing left to write
abbrev pub emptied : Client → Client
emptied c = record c { write_buf = []; writable_mask = false }

-- what is to become of a client: one that quits is closed
abbrev pub final : Option Client → Option Client
final none = none
final (some c) = if c.close_after_write then none else some (emptied c)

abbrev pub size : Option Client → ℕ
size none = 0
size (some c) = length c.write_buf

-- the client after a round, on its way
pub record IsNearer (c d : Client) : Type 0 where
  pub same : emptied d ≡ emptied c
  pub quits : d.close_after_write ≡ c.close_after_write
  pub fewer : length d.write_buf ≤ length c.write_buf - 1

watch-fields :
    (wanted : Bool) (fd : ℕ) (c : Client) (loop : EventLoop Callback)
    → (emptied (watch wanted fd c loop).0 ≡ emptied c)
      × ((watch wanted fd c loop).0.close_after_write ≡ c.close_after_write)
      × ((watch wanted fd c loop).0.write_buf ≡ c.write_buf)
unfolding watch
watch-fields true fd c loop = elim (Bool-cases c.writable_mask) [
  | inl e ↦ rw e (refl, refl, refl)
  | inr e ↦ rw e (refl, refl, refl)
]
watch-fields false fd c loop = elim (Bool-cases c.writable_mask) [
  | inl e ↦ rw e (refl, refl, refl)
  | inr e ↦ rw e (refl, refl, refl)
]

after_send-IsNearer :
    (k fd : ℕ) (c : Client) (loop : EventLoop Callback)
    → IsNearer c (after_send (taken (suc k)) fd c loop).0
unfolding after_send
after_send-IsNearer k fd c loop =
    let left = drop (suc k) c.write_buf in
    let (same, quits, buf) =
      watch-fields (not (is_empty left)) fd (record c { write_buf = left }) loop in
    record {
      same = same;
      quits = quits;
      fewer =
          subst (λ b. length b ≤ length c.write_buf - 1) (sym buf)
            (omega (arith, length-drop (suc k) c.write_buf));
    }

-- every `send` of some bytes takes one at least
abbrev pub Takes : System → ℕ → Type 0
Takes system fd =
    (m : ℕ) (buf : Bytes) → is_empty buf ≡ false → (k : ℕ) × (system.send m fd buf ≡ taken (suc k))

length-empty : (l : Bytes) → is_empty l ≡ true → length l ≡ 0
length-empty [] e = refl
length-empty (x ∷ l) e = cc

pub flush_write_buf-IsNearer :
    (system : System) (m fd : ℕ) (c : Client) (loop : EventLoop Callback)
    → Takes system fd
    → IsNearer c (flush_write_buf (system.send m fd) fd c loop).0
unfolding flush_write_buf
flush_write_buf-IsNearer system m fd c loop t = elim (Bool-cases (is_empty c.write_buf)) [
  | inl e ↦
      subst (λ r. IsNearer c r.0) (sym (ap flushed e))
        (record { same = refl; quits = refl; fewer = omega (arith, length-empty c.write_buf e) })
  | inr e ↦
      let (k, sent) = t m c.write_buf e in
      subst (λ r. IsNearer c r.0) (sym (ap flushed e ∙ ap (λ s. after_send s fd c loop) sent))
        (after_send-IsNearer k fd c loop)
]
  where
    flushed : Bool → Client × EventLoop Callback
    flushed b = if b then (c, loop) else after_send (system.send m fd c.write_buf) fd c loop

pub client_of-close_client :
    (fd f : ℕ) (h : Host)
    → client_of f (close_client fd h).clients ≡ (if fd == f then none else client_of f h.clients)
unfolding close_client
client_of-close_client fd f h = client_of-erase_client fd f h.clients

-- `settle` stores the client or closes it, and leaves the others
pub client_of-settle :
    (fd f : ℕ) (r : Client × EventLoop Callback) (h : Host)
    → client_of f (settle fd r h).clients ≡ (
        if fd == f
        then if r.0.close_after_write && is_empty r.0.write_buf then none else some r.0
        else client_of f h.clients)
unfolding settle
client_of-settle fd f r h =
    let h' = record h { loop = r.1; clients = put_client fd r.0 h.clients } in
    ground (arith, client_of-close_client fd f h', client_of-put_client fd f r.0 h.clients)
