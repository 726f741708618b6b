-- ===== src/Main/Files.antt =====
-- The snapshot file during a run of src/main.cpp: only `Stop` writes it.
use redis_like.Base.{
  ℕ, zero, suc, ◌≡◌, refl, sym, ◌∙◌, ap, false, Option, none, some, List, [], ◌∷◌, Bytes, ◌==◌, ◌%◌,
  length, if◌then◌else◌, arith, inl, inr, Bool-cases, Option-cases,
}
use redis_like.Rdb.{save}
use redis_like.Dict.{Dict}
use redis_like.Server.{Client, on_bytes}
use redis_like.Server.Lifecycle
use redis_like.EventLoop.Kept.{run_once-kept}
use redis_like.Server.Host.{
  Callback, System, Host, Received, accepts, serves, client_of, close_client, settle, answer,
  on_readable, on_client_event, accept_client, on_accept, call,
}
use redis_like.Server.Host.Program.{loop_of, expire_check, tick, stop, stop_listening, remove_all}
use redis_like.Server.Host.Reached.{tick-running, tick-idle}
use redis_like.Main.{main_loop}
use redis_like.EventLoop.{remove_event}

file-answer :
    (system : System) (fd : ℕ) (c : Client) (h : Host) → (answer system fd c h).file ≡ h.file
unfolding answer settle close_client
file-answer system fd c h = ground arith

file-on_readable :
    (system : System) (fd : ℕ) (received : Received) (c : Client) (h : Host)
    → (on_readable system fd received c h).file ≡ h.file
unfolding on_readable close_client
file-on_readable system fd none c h = refl
file-on_readable system fd (some bytes) c h =
    let (server, c') = on_bytes (system.clock h.moment) 0 bytes h.server c in
    file-answer system fd c' (record h { server = server })

file-on_client_event :
    (system : System) (fd mask : ℕ) (h : Host) → (on_client_event system fd mask h).file ≡ h.file
unfolding on_client_event
file-on_client_event system fd mask h = elim (Option-cases (client_of fd h.clients)) [
  | inl e ↦ rw (on_client_event, e) refl
  | inr (c, e) ↦ elim (Bool-cases (mask % 2 == 1)) [
    | inl b ↦ rw (on_client_event, e, b) (file-on_readable system fd (system.recv h.moment fd) c h)
    | inr b ↦ rw (on_client_event, e, b) (file-answer system fd c h)
  ]
]

file-on_accept : (fds : List ℕ) (h : Host) → (on_accept fds h).file ≡ h.file
unfolding on_accept accept_client
file-on_accept [] h = refl
file-on_accept (fd ∷ fds) h = file-on_accept fds (accept_client fd h)

file-call :
    (system : System) (cb : Callback) (mask : ℕ) (h : Host) → (call system cb mask h).file ≡ h.file
unfolding call
file-call system accepts mask h = file-on_accept (system.accept h.moment) h
file-call system (serves fd) mask h = file-on_client_event system fd mask h

file-tick : (system : System) (h : Host) → (tick system h).file ≡ h.file
unfolding expire_check
file-tick system h = elim (Bool-cases h.running) [
  | inl e ↦
      ap (λ h. h.file) (tick-running system h e)
      ∙ run_once-kept loop_of (call system) (λ t. t.file ≡ h.file)
          (λ cb mask t k. file-call system cb mask t ∙ k) (system.epoll_wait h.moment) h refl
  | inr e ↦ ap (λ h. h.file) (tick-idle system h e)
]

pub file-main_loop : (system : System) (n : ℕ) (h : Host) → (main_loop system n h).file ≡ h.file
unfolding main_loop
file-main_loop system zero h = refl
file-main_loop system (suc n) h = file-main_loop system n (tick system h) ∙ file-tick system h

data_of-remove_all :
    (cs : List (ℕ × Client)) (h : Host)
    → ((remove_all cs h).server ≡ h.server) × ((remove_all cs h).file ≡ h.file)
unfolding remove_all
data_of-remove_all [] h = (refl, refl)
data_of-remove_all ((fd, c) ∷ cs) h =
    data_of-remove_all cs (record h { loop = remove_event fd h.loop; closed = fd ∷ h.closed })

data_of-stop_listening :
    (l : Option ℕ) (h : Host)
    → ((stop_listening l h).server ≡ h.server) × ((stop_listening l h).file ≡ h.file)
unfolding stop_listening
data_of-stop_listening none h = (refl, refl)
data_of-stop_listening (some fd) h = (refl, refl)

pub data_of-stop :
    (h : Host)
    → ((stop h).server ≡ (Lifecycle.stop h.server h.file).0)
      × ((stop h).file ≡ (Lifecycle.stop h.server h.file).1)
unfolding stop Lifecycle.stop
data_of-stop h =
    let (server, file) = Lifecycle.stop h.server h.file in
    let h₁ = record h { running = false; server = server; file = file } in
    let h₂ = stop_listening h.listen_fd h₁ in
    let (a, b) = data_of-stop_listening h.listen_fd h₁ in
    let (c, d) = data_of-remove_all h₂.clients h₂ in (c ∙ a, d ∙ b)

-- the file behind `Stop` of a keyspace, on a file
abbrev pub saved_on : Option Bytes → Dict → Option Bytes
saved_on file db = if length db == 0 then file else some (save db)

pub db-stop : (h : Host) → (stop h).server.db ≡ h.server.db
unfolding Lifecycle.stop
db-stop h = ap (λ server. server.db) (data_of-stop h).0

pub file-stop : (h : Host) → (stop h).file ≡ saved_on h.file (stop h).server.db
unfolding Lifecycle.stop
file-stop h = (data_of-stop h).1 ∙ ap (saved_on h.file) (sym (db-stop h))

saved_on-again :
    (file : Option Bytes) (db : Dict) → saved_on (saved_on file db) db ≡ saved_on file db
saved_on-again file db = ground arith

-- `Stop` twice is `Stop`
pub file-stop_twice : (h : Host) → (stop (stop h)).file ≡ saved_on h.file (stop (stop h)).server.db
file-stop_twice h =
    let same = db-stop (stop h) in
    file-stop (stop h)
    ∙ ap (saved_on (stop h).file) same
    ∙ ap (λ file. saved_on file (stop h).server.db) (file-stop h)
    ∙ saved_on-again h.file (stop h).server.db
    ∙ ap (saved_on h.file) (sym same)
