-- ===== src/Server/Host/Data.antt =====
-- What the commands, the periodic check and the end of the server in src/server.cpp keep of its data,
-- the whole program keeps.
use mathlib.Core.Path.{subst}
use redis_like.Base.{
  arith, ℕ, ◌≡◌, refl, sym, ◌∙◌, false, ◌%◌, ◌==◌, Option, none, some, List, [], ◌∷◌, Bytes, inl,
  inr, Bool-cases, Option-cases, ℤ,
}
use redis_like.Expire.Periodic.{periodic_expire_check, Draws}
use redis_like.EventLoop.{remove_event, run_once}
use redis_like.EventLoop.Kept.{run_once-kept}
use redis_like.Server.{Client, RedisServer, Clock, on_bytes}
use redis_like.Server.Lifecycle
use redis_like.Server.Host.{
  Callback, System, Host, accepts, serves, client_of, close_client, settle, answer, on_readable,
  on_client_event, accept_client, on_accept, call, Received,
}
use redis_like.Server.Host.Program.{loop_of, expire_check, tick, stop, stop_listening, remove_all}
use redis_like.Server.Host.Reached.{Step, Reach, ticks, stops, here, next, tick-running, tick-idle}

pub server-answer :
    (system : System) (fd : ℕ) (c : Client) (h : Host) → (answer system fd c h).server ≡ h.server
unfolding answer settle close_client
server-answer system fd c h = ground arith

pub server-on_accept : (fds : List ℕ) (h : Host) → (on_accept fds h).server ≡ h.server
unfolding on_accept accept_client
server-on_accept [] h = refl
server-on_accept (fd ∷ fds) h = server-on_accept fds (accept_client fd h)

server-remove_all : (cs : List (ℕ × Client)) (h : Host) → (remove_all cs h).server ≡ h.server
unfolding remove_all
server-remove_all [] h = refl
server-remove_all ((fd, c) ∷ cs) h =
    server-remove_all cs (record h { loop = remove_event fd h.loop; closed = fd ∷ h.closed })

server-stop_listening : (l : Option ℕ) (h : Host) → (stop_listening l h).server ≡ h.server
unfolding stop_listening
server-stop_listening none h = refl
server-stop_listening (some fd) h = refl

pub server-stop : (h : Host) → (stop h).server ≡ (Lifecycle.stop h.server h.file).0
unfolding stop
server-stop h =
    let (server, file) = Lifecycle.stop h.server h.file in
    let h₁ = record h { running = false; server = server; file = file } in
    let h₂ = stop_listening h.listen_fd h₁ in
    server-remove_all h₂.clients h₂ ∙ server-stop_listening h.listen_fd h₁

module _ (P : RedisServer → Type 0)
    (run : (clock : Clock) (bytes : Bytes) (server : RedisServer) (client : Client)
      → P server
      → P (on_bytes clock 0 bytes server client).0)
    (purge : (draw : Draws) (now last : ℤ) (server : RedisServer)
      → P server
      → P (record server { db = (periodic_expire_check draw now last server.db).1 }))
    (shut : (server : RedisServer) (file : Option Bytes)
      → P server
      → P (Lifecycle.stop server file).0) where
  on_readable-kept :
      (system : System) (fd : ℕ) (received : Received) (c : Client) (h : Host)
      → P h.server
      → P (on_readable system fd received c h).server
  unfolding on_readable close_client
  on_readable-kept system fd none c h s = s
  on_readable-kept system fd (some bytes) c h s =
      let (server, c') = on_bytes (system.clock h.moment) 0 bytes h.server c in
      subst P (sym (server-answer system fd c' (record h { server = server })))
        (run (system.clock h.moment) bytes h.server c s)

  on_client_event-kept :
      (system : System) (fd mask : ℕ) (h : Host)
      → P h.server
      → P (on_client_event system fd mask h).server
  unfolding on_client_event
  on_client_event-kept system fd mask h s = elim (Option-cases (client_of fd h.clients)) [
    | inl e ↦ rw (on_client_event, e) s
    | inr (c, e) ↦ elim (Bool-cases (mask % 2 == 1)) [
      | inl b ↦
          rw (on_client_event, e, b) (on_readable-kept system fd (system.recv h.moment fd) c h s)
      | inr b ↦ rw (on_client_event, e, b) (subst P (sym (server-answer system fd c h)) s)
    ]
  ]

  call-kept :
      (system : System) (cb : Callback) (mask : ℕ) (h : Host)
      → P h.server
      → P (call system cb mask h).server
  unfolding call
  call-kept system accepts mask h s = subst P (sym (server-on_accept (system.accept h.moment) h)) s
  call-kept system (serves fd) mask h s = on_client_event-kept system fd mask h s

  tick-kept : (system : System) (h : Host) → P h.server → P (tick system h).server
  unfolding expire_check
  tick-kept system h s = elim (Bool-cases h.running) [
    | inl e ↦
        let h' = run_once loop_of (call system) (system.epoll_wait h.moment) h in
        let s' =
          run_once-kept loop_of (call system) (λ h. P h.server) (call-kept system)
            (system.epoll_wait h.moment) h s in
        subst (λ h. P h.server) (sym (tick-running system h e))
          (purge (system.draw h'.moment) (system.clock h'.moment 0) h'.last_expire_check h'.server
            s')
    | inr e ↦ subst (λ h. P h.server) (sym (tick-idle system h e)) s
  ]

  stop-kept : (h : Host) → P h.server → P (stop h).server
  stop-kept h s = subst P (sym (server-stop h)) (shut h.server h.file s)

  Step-kept : {system : System} {t u : Host} → Step system t u → P t.server → P u.server
  Step-kept {system} (ticks h) s = tick-kept system h s
  Step-kept (stops h) s = stop-kept h s

  pub Reach-kept : {system : System} {h u : Host} → Reach system h u → P h.server → P u.server
  Reach-kept here s = s
  Reach-kept (next path step) s = Step-kept step (Reach-kept path s)
