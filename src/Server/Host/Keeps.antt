-- ===== src/Server/Host/Keeps.antt =====
-- `CloseClient` and the writing half of `OnClientEvent` of src/server.cpp keep the event loop and the clients in
-- step.
use mathlib.Core.Path.{subst}
use redis_like.Base.{
  ℕ, ◌≡◌, sym, ◌∙◌, ap, ◌&&◌, some, is_empty, if◌then◌else◌, inl, inr, Bool-cases,
}
use redis_like.EventLoop.{EventLoop, event_of}
use redis_like.Server.{Client}
use redis_like.Server.Host.{
  Callback, System, Host, serves, client_of, put_client, mask_for, flush_write_buf, close_client,
  settle, answer,
}
use redis_like.Server.Host.Sound.{IsSound, event_for, event_due}
use redis_like.Server.Host.Flush.{IsPending, IsFlushed, flush_write_buf-IsFlushed}
use redis_like.Server.Host.Tables.{
  but_one, client-IsOther, due_client, put_client-IsSound, put_client-IsSoundBut,
  erase_client-IsSound,
}

abbrev pub IsSoundHost : Host → Type 0
IsSoundHost h = IsSound h.listen_fd h.clients h.loop

pub close_client-IsSound :
    (fd : ℕ) (c : Client) (h : Host)
    → client_of fd h.clients ≡ some c
    → IsSoundHost h
    → IsSoundHost (close_client fd h)
unfolding close_client
close_client-IsSound fd c h e s =
    erase_client-IsSound h.listen_fd fd h.clients h.loop (but_one fd h.listen_fd h.clients h.loop s)
      (client-IsOther h.listen_fd fd c h.clients s.apart e)

settle-IsSound :
    (fd : ℕ) (c : Client) (r : Client × EventLoop Callback) (h : Host)
    → client_of fd h.clients ≡ some c
    → IsSoundHost h
    → IsFlushed fd h.loop r
    → IsSoundHost (settle fd r h)
unfolding settle close_client
settle-IsSound fd c r h e s flushed =
    let o = client-IsOther h.listen_fd fd c h.clients s.apart e in
    let h' = record h { loop = r.1; clients = put_client fd r.0 h.clients } in
    let finished = r.0.close_after_write && is_empty r.0.write_buf in
    elim (Bool-cases finished) [
      | inl b ↦ subst IsSoundHost (sym (ap (λ b. if b then close_client fd h' else h') b)) (
          erase_client-IsSound h.listen_fd fd h'.clients r.1
            (put_client-IsSoundBut h.listen_fd fd r h.clients h.loop s o flushed) o)
      | inr b ↦ subst IsSoundHost (sym (ap (λ b. if b then close_client fd h' else h') b)) (
          put_client-IsSound h.listen_fd fd r.0 h.clients h.loop r.1 s o
            (record { waiting = flushed.waiting; unfinished = b }) flushed.known flushed.others)
    ]

-- the event of a client
event_of-client :
    (fd : ℕ) (c : Client) (h : Host)
    → client_of fd h.clients ≡ some c
    → IsSoundHost h
    → event_of fd h.loop.events ≡ some (event_for fd c)
event_of-client fd c h e s =
    s.table fd
    ∙ ap (event_due h.listen_fd fd) e
    ∙ due_client h.listen_fd fd c (client-IsOther h.listen_fd fd c h.clients s.apart e)

-- The client as it is stored, and as it is after commands: the mask is the same.
pub answer-IsSound :
    (system : System) (fd : ℕ) (c c' : Client) (h : Host)
    → client_of fd h.clients ≡ some c
    → IsSoundHost h
    → c'.writable_mask ≡ c.writable_mask
    → IsPending c'
    → IsSoundHost (answer system fd c' h)
unfolding answer
answer-IsSound system fd c c' h e s same p =
    settle-IsSound fd c (flush_write_buf (system.send h.moment fd) fd c' h.loop) h e s (
      flush_write_buf-IsFlushed (system.send h.moment fd) fd c' h.loop s.known
        (event_of-client fd c h e s
          ∙ ap (λ m. some (record { mask = mask_for m; cb = serves fd })) (sym same))
        p)
