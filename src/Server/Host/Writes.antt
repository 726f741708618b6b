-- ===== src/Server/Host/Writes.antt =====
-- The write commands that the server of src/server.cpp has to log, from what its clients send.
use mathlib.Core.Path.{subst}
use redis_like.Base.{
  ℕ, suc, ◌≡◌, refl, sym, ◌∙◌, ap, Bool, true, false, Option, none, some, List, [], ◌∷◌, ◌++◌, ◌==◌,
  ◌%◌, map, append_assoc, append-nil, Bytes, All, if◌then◌else◌, arith, inl, inr, Bool-cases,
  Option-cases,
}
use redis_like.Resp.{RespCommand, concat, feed}
use redis_like.Resp.Sizes.{feed-AllSmall}
use redis_like.Aof.{AofLogger, append, append_to_aof, serialize}
use redis_like.Aof.Replay.{IsLoggable, append_all, file-append_all}
use redis_like.EventLoop.{FileEvent, Fired, event_of, fired_mask, dispatch, dispatch_all}
use redis_like.Server.{Client, RedisServer, Clock, process_command, process_all, on_bytes}
use redis_like.Server.Recovery.{IsWrite, logged, aof-process_all, logged-IsWrite}
use redis_like.Server.Host.{
  Callback, System, Host, Received, accepts, serves, client_of, close_client, on_readable,
  on_client_event, call,
}
use redis_like.Server.Host.Program.{loop_of}
use redis_like.Server.Host.Data.{server-answer, server-on_accept}

-- write commands that the log can hold
abbrev pub AreWrites : List RespCommand → Type 0
AreWrites = All (λ cmd. IsWrite cmd × IsLoggable cmd)

pub AreWrites-append : (a b : List RespCommand) → AreWrites a → AreWrites b → AreWrites (a ++ b)
AreWrites-append [] b h k = k
AreWrites-append (cmd ∷ a) b h k = (h.0, AreWrites-append a b h.1 k)

-- the bytes of the commands
abbrev pub log_of : List RespCommand → Bytes
log_of cmds = concat (map serialize cmds)

pub log_of-append : (a b : List RespCommand) → log_of (a ++ b) ≡ log_of a ++ log_of b
unfolding concat
log_of-append [] b = refl
log_of-append (cmd ∷ a) b =
    ap (λ s. serialize cmd ++ s) (log_of-append a b)
    ∙ sym (append_assoc (serialize cmd) (log_of a) (log_of b))

-- what a client sends, behind what was kept of it: the commands that are to be logged
abbrev writes_read : System → ℕ → Client → Received → Host → List RespCommand
writes_read system fd c none h = []
writes_read system fd c (some bytes) h =
    logged (system.clock h.moment) 0 (feed c.read_buf bytes).0 h.server.router h.server.db

abbrev writes_of_client : System → ℕ → ℕ → Option Client → Host → List RespCommand
writes_of_client system fd mask none h = []
writes_of_client system fd mask (some c) h =
    if mask % 2 == 1 then writes_read system fd c (system.recv h.moment fd) h else []

-- those of a callback
abbrev writes_of_call : System → Callback → ℕ → Host → List RespCommand
writes_of_call system accepts mask h = []
writes_of_call system (serves fd) mask h =
    writes_of_client system fd mask (client_of fd h.clients) h

-- those of an event
abbrev writes_of_found : System → ℕ → Option (FileEvent Callback) → Host → List RespCommand
writes_of_found system mask none h = []
writes_of_found system mask (some ev) h = writes_of_call system ev.cb mask h

abbrev writes_of_event : System → Fired → Host → List RespCommand
writes_of_event system f h = writes_of_found system (fired_mask f) (event_of f.fd h.loop.events) h

abbrev pub writes_of_events : System → List Fired → Host → List RespCommand
writes_of_events system [] h = []
writes_of_events system (f ∷ fs) h =
    if fired_mask f == 0
    then writes_of_events system fs h
    else writes_of_event system f h
      ++ writes_of_events system fs (dispatch loop_of (call system) f.fd (fired_mask f) h)

-- from `s` to `t` just these commands were logged, if the log is open
pub record Logs (cmds : List RespCommand) (s t : RedisServer) : Type 0 where
  pub same_router : t.router ≡ s.router
  pub same_open : t.aof.is_open ≡ s.aof.is_open
  pub all : AreWrites cmds
  pub log : s.aof.is_open ≡ true → t.aof.file ≡ s.aof.file ++ log_of cmds

pub Logs-nothing : (s : RedisServer) → Logs [] s s
unfolding concat
Logs-nothing s = record {
  same_router = refl;
  same_open = refl;
  all = tt;
  log = λ e. sym (append-nil s.aof.file);
}

Logs-append :
    (a b : List RespCommand) (s t u : RedisServer) → Logs a s t → Logs b t u → Logs (a ++ b) s u
Logs-append a b s t u h k = record {
  same_router = k.same_router ∙ h.same_router;
  same_open = k.same_open ∙ h.same_open;
  all = AreWrites-append a b h.all k.all;
  log = λ e.
      k.log (h.same_open ∙ e)
      ∙ ap (λ f. f ++ log_of b) (h.log e)
      ∙ append_assoc s.aof.file (log_of a) (log_of b)
      ∙ ap (λ f. s.aof.file ++ f) (sym (log_of-append a b));
}

is_open-append_all :
    (log : AofLogger) (cmds : List RespCommand) → (append_all log cmds).is_open ≡ log.is_open
unfolding append_all append_to_aof append
is_open-append_all log [] = refl
is_open-append_all log (cmd ∷ cmds) = is_open-append_all (append_to_aof log cmd) cmds ∙ ground arith

router-process_all :
    (clock : Clock) (i : ℕ) (cmds : List RespCommand) (server : RedisServer) (client : Client)
    → (process_all clock i cmds server client).0.router ≡ server.router
unfolding process_all process_command
router-process_all clock i [] server client = refl
router-process_all clock i (cmd ∷ cmds) server client =
    let next = process_command (clock i) cmd server client in
    router-process_all clock (suc i) cmds next.0 next.1

on_bytes-Logs :
    (clock : Clock) (bytes : Bytes) (server : RedisServer) (c : Client)
    → Logs
        (logged clock 0 (feed c.read_buf bytes).0 server.router server.db)
        server
        (on_bytes clock 0 bytes server c).0
unfolding on_bytes
on_bytes-Logs clock bytes server c =
    let (cmds, rest) = feed c.read_buf bytes in
    let client = record c { read_buf = rest } in
    let writes = logged clock 0 cmds server.router server.db in
    let aof = aof-process_all clock 0 cmds server client in
    record {
      same_router = router-process_all clock 0 cmds server client;
      same_open = ap (λ aof. aof.is_open) aof ∙ is_open-append_all server.aof writes;
      all = logged-IsWrite clock 0 cmds server.router server.db (feed-AllSmall c.read_buf bytes);
      log = λ e. ap (λ aof. aof.file) aof ∙ file-append_all server.aof writes e;
    }

on_readable-Logs :
    (system : System) (fd : ℕ) (received : Received) (c : Client) (h : Host)
    → Logs (writes_read system fd c received h) h.server (on_readable system fd received c h).server
unfolding on_readable close_client
on_readable-Logs system fd none c h = Logs-nothing h.server
on_readable-Logs system fd (some bytes) c h =
    let (server, c') = on_bytes (system.clock h.moment) 0 bytes h.server c in
    subst (Logs (writes_read system fd c (some bytes) h) h.server)
      (sym (server-answer system fd c' (record h { server = server })))
      (on_bytes-Logs (system.clock h.moment) bytes h.server c)

on_client_event-Logs :
    (system : System) (fd mask : ℕ) (h : Host)
    → Logs
        (writes_of_client system fd mask (client_of fd h.clients) h)
        h.server
        (on_client_event system fd mask h).server
unfolding on_client_event
on_client_event-Logs system fd mask h = elim (Option-cases (client_of fd h.clients)) [
  | inl e ↦ rw (on_client_event, e) (Logs-nothing h.server)
  | inr (c, e) ↦ elim (Bool-cases (mask % 2 == 1)) [
    | inl b ↦ rw (on_client_event, e, b) (on_readable-Logs system fd (system.recv h.moment fd) c h)
    | inr b ↦
        rw (on_client_event, e, b)
          (subst (Logs [] h.server) (sym (server-answer system fd c h)) (Logs-nothing h.server))
  ]
]

call-Logs :
    (system : System) (cb : Callback) (mask : ℕ) (h : Host)
    → Logs (writes_of_call system cb mask h) h.server (call system cb mask h).server
unfolding call
call-Logs system accepts mask h =
    subst (Logs [] h.server) (sym (server-on_accept (system.accept h.moment) h))
      (Logs-nothing h.server)
call-Logs system (serves fd) mask h = on_client_event-Logs system fd mask h

dispatch-Logs :
    (system : System) (f : Fired) (h : Host)
    → Logs
        (writes_of_event system f h)
        h.server
        (dispatch loop_of (call system) f.fd (fired_mask f) h).server
unfolding dispatch
dispatch-Logs system f h =
    elim (event_of f.fd h.loop.events)
      as (λ o.
        Logs (writes_of_found system (fired_mask f) o h) h.server
          (elim o as (λ x. Host) [
            | none ↦ h
            | some ev ↦ call system ev.cb (fired_mask f) h
          ]).server) [
            | none ↦ Logs-nothing h.server
            | some ev ↦ call-Logs system ev.cb (fired_mask f) h
          ]

-- an event may have no mask
masked-Logs :
    (b : Bool) (all first others : List RespCommand) (s : RedisServer) (t u v : Host)
    → Logs all s t.server
    → Logs first s u.server
    → Logs others u.server v.server
    → Logs (if b then all else first ++ others) s (if b then t else v).server
masked-Logs true all first others s t u v h k l = h
masked-Logs false all first others s t u v h k l = Logs-append first others s u.server v.server k l

pub dispatch_all-Logs :
    (system : System) (fs : List Fired) (h : Host)
    → Logs (writes_of_events system fs h) h.server (dispatch_all loop_of (call system) fs h).server
unfolding dispatch_all
dispatch_all-Logs system [] h = Logs-nothing h.server
dispatch_all-Logs system (f ∷ fs) h =
    let h' = dispatch loop_of (call system) f.fd (fired_mask f) h in
    let all = dispatch_all loop_of (call system) fs in
    subst (λ (t : Host). Logs (writes_of_events system (f ∷ fs) h) h.server t.server)
      (sym (apart (fired_mask f == 0) (all) h h'))
      (masked-Logs (fired_mask f == 0) (writes_of_events system fs h) (writes_of_event system f h)
        (writes_of_events system fs h') h.server (all h) h' (all h') (dispatch_all-Logs system fs h)
        (dispatch-Logs system f h) (dispatch_all-Logs system fs h'))
  where
    apart :
        (b : Bool) (g : Host → Host) (x y : Host)
        → g (if b then x else y) ≡ (if b then g x else g y)
    apart true g x y = refl
    apart false g x y = refl
