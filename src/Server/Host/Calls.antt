-- ===== src/Server/Host/Calls.antt =====
-- Whatever the event loop calls, `Init` and `Stop` keep the event loop and the clients of
-- src/server.cpp in step.
use mathlib.Core.Path.{subst}
use redis_like.Base.{
  ℕ, suc, ◌≡◌, refl, sym, ◌∙◌, ap, Bool, true, false, not, Option, none, some, List, [], ◌∷◌, ◌++◌,
  ◌==◌, ◌%◌, Bytes, is_empty, if◌then◌else◌, arith, inl, inr, Bool-cases, Option-cases, All,
}
use redis_like.Resp.{RespCommand, feed}
use redis_like.EventLoop.{add_event}
use redis_like.EventLoop.Told.{add_event-IsTold, event_of-add_event}
use redis_like.Server.{
  Client, RedisServer, Clock, process_command, process_all, send_response, on_bytes,
}
use redis_like.Server.Host.{
  Callback, System, Host, accepts, serves, client_of, mask_for, new_client, close_client, settle,
  answer, on_readable, on_client_event, accept_client, on_accept, call, Received,
}
use redis_like.Server.Host.Sound.{Rests}
use redis_like.Server.Host.Flush.{IsPending}
use redis_like.Server.Host.Keeps.{IsSoundHost, close_client-IsSound, answer-IsSound}
use redis_like.Server.Host.Tables.{IsOther, put_client-IsSound}

is_empty-append : (a b : Bytes) → is_empty a ≡ false → is_empty (a ++ b) ≡ false
is_empty-append [] b e = cc
is_empty-append (x ∷ a) b e = refl

-- commands leave the mask, and only add to what is to be written
process_all-writable :
    (clock : Clock) (i : ℕ) (cmds : List RespCommand) (server : RedisServer) (client : Client)
    → ((process_all clock i cmds server client).1.writable_mask ≡ client.writable_mask)
      × (is_empty client.write_buf ≡ false
          → is_empty (process_all clock i cmds server client).1.write_buf ≡ false)
unfolding process_all process_command send_response
process_all-writable clock i [] server client = (refl, λ e. e)
process_all-writable clock i (cmd ∷ cmds) server client =
    let next = process_command (clock i) cmd server client in
    let (same, more) = process_all-writable clock (suc i) cmds next.0 next.1 in
    (same, λ e. more (is_empty-append client.write_buf _ e))

on_bytes-IsPending :
    (clock : Clock) (bytes : Bytes) (server : RedisServer) (client : Client)
    → IsPending client
    → ((on_bytes clock 0 bytes server client).1.writable_mask ≡ client.writable_mask)
      × IsPending (on_bytes clock 0 bytes server client).1
unfolding on_bytes
on_bytes-IsPending clock bytes server client p =
    let (cmds, rest) = feed client.read_buf bytes in
    let (same, more) =
      process_all-writable clock 0 cmds server (record client { read_buf = rest }) in
    (same, λ e. more (p (sym same ∙ e)))

Rests-IsPending : (c : Client) → Rests c → IsPending c
Rests-IsPending c r e = waits c.writable_mask (is_empty c.write_buf) r.waiting e
  where
    waits : (m b : Bool) → m ≡ not b → m ≡ true → b ≡ false
    waits m b e k = ground arith

on_readable-IsSound :
    (system : System) (fd : ℕ) (received : Received) (c : Client) (h : Host)
    → client_of fd h.clients ≡ some c
    → IsSoundHost h
    → IsSoundHost (on_readable system fd received c h)
unfolding on_readable
on_readable-IsSound system fd none c h e s = close_client-IsSound fd c h e s
on_readable-IsSound system fd (some bytes) c h e s =
    let (server, c') = on_bytes (system.clock h.moment) 0 bytes h.server c in
    let (same, p) =
      on_bytes-IsPending (system.clock h.moment) bytes h.server c
        (Rests-IsPending c (s.rests fd c e)) in
    answer-IsSound system fd c c' (record h { server = server }) e s same p

pub on_client_event-IsSound :
    (system : System) (fd mask : ℕ) (h : Host)
    → IsSoundHost h
    → IsSoundHost (on_client_event system fd mask h)
unfolding on_client_event
on_client_event-IsSound system fd mask h s = elim (Option-cases (client_of fd h.clients)) [
  | inl e ↦ subst IsSoundHost (sym (ap (λ o. event_on o) e)) s
  | inr (c, e) ↦
      subst IsSoundHost (sym (ap (λ o. event_on o) e)) (elim (Bool-cases (mask % 2 == 1)) [
        | inl b ↦
            subst IsSoundHost (sym (ap (λ b. if b then read_of c else answer_of c) b))
              (on_readable-IsSound system fd (system.recv h.moment fd) c h e s)
        | inr b ↦
            subst IsSoundHost (sym (ap (λ b. if b then read_of c else answer_of c) b))
              (answer-IsSound system fd c c h e s refl (Rests-IsPending c (s.rests fd c e)))
      ])
]
  where
    read_of : Client → Host
    read_of c = on_readable system fd (system.recv h.moment fd) c h

    answer_of : Client → Host
    answer_of c = answer system fd c h

    event_on : Option Client → Host
    event_on o = elim o [ none ↦ h | some c ↦ if mask % 2 == 1 then read_of c else answer_of c ]

listen_fd-answer :
    (system : System) (fd : ℕ) (c : Client) (h : Host)
    → (answer system fd c h).listen_fd ≡ h.listen_fd
unfolding answer settle close_client
listen_fd-answer system fd c h = ground arith

listen_fd-on_readable :
    (system : System) (fd : ℕ) (received : Received) (c : Client) (h : Host)
    → (on_readable system fd received c h).listen_fd ≡ h.listen_fd
unfolding on_readable close_client
listen_fd-on_readable system fd none c h = refl
listen_fd-on_readable system fd (some bytes) c h =
    let (server, c') = on_bytes (system.clock h.moment) 0 bytes h.server c in
    listen_fd-answer system fd c' (record h { server = server })

listen_fd-on_client_event :
    (system : System) (fd mask : ℕ) (h : Host)
    → (on_client_event system fd mask h).listen_fd ≡ h.listen_fd
unfolding on_client_event
listen_fd-on_client_event system fd mask h = elim (Option-cases (client_of fd h.clients)) [
  | inl e ↦ rw (on_client_event, e) refl
  | inr (c, e) ↦
      rw (on_client_event, e)
        (ground (
          arith,
          listen_fd-answer system fd c h,
          listen_fd-on_readable system fd (system.recv h.moment fd) c h,
        ))
]

-- The host keeps its listening socket `l`, and is in step.
abbrev pub Serves : Option ℕ → Host → Type 0
Serves l h = (h.listen_fd ≡ l) × IsSoundHost h

accept_client-Serves :
    (l : Option ℕ) (fd : ℕ) (h : Host) → IsOther l fd → Serves l h → Serves l (accept_client fd h)
unfolding accept_client
accept_client-Serves l fd h o (e, s) = (
  e,
  put_client-IsSound h.listen_fd fd new_client h.clients h.loop
      (add_event fd (mask_for false) (serves fd) h.loop) s (subst (λ k. IsOther k fd) (sym e) o)
      (record { waiting = refl; unfinished = refl })
      (add_event-IsTold fd (mask_for false) (serves fd) h.loop s.known)
      (event_of-add_event fd (mask_for false) (serves fd) h.loop),
)

on_accept-Serves :
    (l : Option ℕ) (fds : List ℕ) (h : Host)
    → All (IsOther l) fds
    → Serves l h
    → Serves l (on_accept fds h)
unfolding on_accept
on_accept-Serves l [] h o s = s
on_accept-Serves l (fd ∷ fds) h o s =
    on_accept-Serves l fds (accept_client fd h) o.1 (accept_client-Serves l fd h o.0 s)

-- `accept` gives sockets of its own, none of them the listening one
abbrev pub AcceptsOthers : System → Option ℕ → Type 0
AcceptsOthers system l = (n : ℕ) → All (IsOther l) (system.accept n)

pub call-Serves :
    (system : System) (l : Option ℕ) (cb : Callback) (mask : ℕ) (h : Host)
    → AcceptsOthers system l
    → Serves l h
    → Serves l (call system cb mask h)
unfolding call
call-Serves system l accepts mask h o s =
    on_accept-Serves l (system.accept h.moment) h (o h.moment) s
call-Serves system l (serves fd) mask h o (e, s) =
    (listen_fd-on_client_event system fd mask h ∙ e, on_client_event-IsSound system fd mask h s)
