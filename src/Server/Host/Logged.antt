-- ===== src/Server/Host/Logged.antt =====
-- What the log of the server in src/server.cpp holds, and what a restart makes of it.
use mathlib.Core.Path.{subst}
use redis_like.Base.{
  ℕ, ◌≡◌, ◌≢◌, refl, sym, ◌∙◌, ap, Bool, true, false, Option, some, List, [], ◌++◌, append_assoc,
  append-nil, Bytes, if◌then◌else◌, inl, inr, Bool-cases, ℤ,
}
use redis_like.Ds.SkipList.{Rolls}
use redis_like.Dict.{Dict}
use redis_like.Resp.{RespCommand, concat}
use redis_like.Aof
use redis_like.Aof.{AofLogger, open_log, serialize, replay}
use redis_like.Aof.Replay.{IsLoggable, file-append_all, replay-append_all}
use redis_like.Router.{CommandRouter}
use redis_like.EventLoop.{dispatch_all, run_once}
use redis_like.Server.{Clock, load_command, load_persisted_data}
use redis_like.Server.Recovery.{run_all, call_all-load_command, All-IsLoggable}
use redis_like.Server.Lifecycle
use redis_like.Server.Host.{System, Host, call}
use redis_like.Server.Host.Program.{loop_of, expire_check, init, new_host, stop}
use redis_like.Server.Host.Reached.{
  Step, Reach, ticks, stops, here, next, ticked, tick-running, tick-idle, running-stop,
}
use redis_like.Server.Host.Data.{server-stop}
use redis_like.Server.Host.Writes.{
  AreWrites, AreWrites-append, log_of, log_of-append, writes_of_events, Logs, Logs-nothing,
  dispatch_all-Logs,
}

-- the commands to be logged in a tick, in a step, and on the way to a state
abbrev writes_of_tick : System → Host → List RespCommand
writes_of_tick system h =
    if h.running
    then if h.loop.epoll then writes_of_events system (system.epoll_wait h.moment) h else []
    else []

abbrev writes_of_step : {system : System} {t u : Host} → Step system t u → List RespCommand
writes_of_step {system} (ticks h) = writes_of_tick system h
writes_of_step (stops h) = []

abbrev pub writes_of : {system : System} {h u : Host} → Reach system h u → List RespCommand
writes_of here = []
writes_of (next path step) = writes_of path ++ writes_of_step step

run_once-Logs :
    (system : System) (h : Host)
    → Logs
        (if h.loop.epoll then writes_of_events system (system.epoll_wait h.moment) h else [])
        h.server
        (run_once loop_of (call system) (system.epoll_wait h.moment) h).server
unfolding run_once
run_once-Logs system h =
    let fired = system.epoll_wait h.moment in
    elim h.loop.epoll
      as (λ b.
        Logs (if b then writes_of_events system fired h else []) h.server
          (if b then dispatch_all loop_of (call system) fired h else h).server) [
            | true ↦ dispatch_all-Logs system fired h
            | false ↦ Logs-nothing h.server
          ]

-- on the way the commands `cmds` were logged, and a server that runs has an open log
record IsLogging (router : CommandRouter) (file : Bytes) (cmds : List RespCommand) (h : Host)
    : Type 0 where
  same_router : h.server.router ≡ router
  all : AreWrites cmds
  log : h.server.aof.file ≡ file ++ log_of cmds
  writable : h.running ≡ true → h.server.aof.is_open ≡ true

ticked-IsLogging :
    (system : System) (router : CommandRouter) (file : Bytes) (cmds : List RespCommand) (h : Host)
    → h.running ≡ true
    → IsLogging router file cmds h
    → IsLogging router file (cmds ++ writes_of_tick system h) (ticked system h)
unfolding expire_check
ticked-IsLogging system router file cmds h e l =
    let events =
      if h.loop.epoll then writes_of_events system (system.epoll_wait h.moment) h else [] in
    let done = run_once-Logs system h in
    let whole : IsLogging router file (cmds ++ events) (ticked system h) = record {
      same_router = done.same_router ∙ l.same_router;
      all = AreWrites-append cmds events l.all done.all;
      log =
          done.log (l.writable e)
          ∙ ap (λ f. f ++ log_of events) l.log
          ∙ append_assoc file (log_of cmds) (log_of events)
          ∙ ap (λ f. file ++ f) (sym (log_of-append cmds events));
      writable = λ k. done.same_open ∙ l.writable e;
    } in
    subst (λ b. IsLogging router file (cmds ++ (if b then events else [])) (ticked system h))
      (sym e) whole

Step-IsLogging :
    {system : System} {t u : Host} (router : CommandRouter) (file : Bytes) (cmds : List RespCommand)
    (step : Step system t u)
    → IsLogging router file cmds t
    → IsLogging router file (cmds ++ writes_of_step step) u
unfolding Lifecycle.stop Aof.close
Step-IsLogging {system} router file cmds (ticks h) l = elim (Bool-cases h.running) [
  | inl e ↦
      subst (IsLogging router file (cmds ++ writes_of_tick system h))
        (sym (tick-running system h e)) (ticked-IsLogging system router file cmds h e l)
  | inr e ↦
      subst (IsLogging router file (cmds ++ writes_of_tick system h)) (sym (tick-idle system h e)) (
        subst
          (λ b.
            IsLogging router file
              (cmds
                ++ (if b
                    then if h.loop.epoll
                      then writes_of_events system (system.epoll_wait h.moment) h
                      else []
                    else []))
              h)
          (sym e) (subst (λ c. IsLogging router file c h) (sym (append-nil cmds)) l))
]
Step-IsLogging router file cmds (stops h) l =
    subst (λ c. IsLogging router file c (stop h)) (sym (append-nil cmds))
      (record {
        same_router = ap (λ s. s.router) (server-stop h) ∙ l.same_router;
        all = l.all;
        log = ap (λ s. s.aof.file) (server-stop h) ∙ l.log;
        writable = λ k. cc (running-stop h, k);
      })

Reach-IsLogging :
    {system : System} {h u : Host} (router : CommandRouter) (file : Bytes) (path : Reach system h u)
    → IsLogging router file [] h
    → IsLogging router file (writes_of path) u
Reach-IsLogging router file here l = l
Reach-IsLogging router file (next path step) l =
    Step-IsLogging router file (writes_of path) step (Reach-IsLogging router file path l)

load-log_of :
    (clock : Clock) (router : CommandRouter) (db : Dict) (cmds : List RespCommand)
    (last : RespCommand) (torn rest : Bytes)
    → AreWrites cmds
    → IsLoggable last
    → serialize last ≡ torn ++ rest
    → rest ≢ []
    → load_persisted_data clock router db (log_of cmds ++ torn) ≡ run_all clock 0 cmds router db
unfolding load_persisted_data open_log
load-log_of clock router db cmds last torn rest h k e more =
    let callback = load_command clock router in
    let log : AofLogger = record { file = []; is_open = false } in
    ap (λ file. (replay callback (file ++ torn) (0, db)).1.1)
      (sym (file-append_all (open_log log) cmds refl))
    ∙ ap (λ r. r.1.1)
        (replay-append_all callback (0, db) log cmds last torn rest refl (All-IsLoggable cmds h) k e
          more)
    ∙ call_all-load_command clock router 0 db cmds h

-- The server is started on a log that holds whole write commands `old`, such as none, with any snapshot
-- and any commands, and reaches a state by ticks and stops, whatever is sent to it. Then the log holds
-- `old` and, behind it and in their order, exactly the write commands that have been read from the
-- clients on the way and were not refused with an error of the kind ERR. If the program stops there
-- while a part of one more command is written, with tokens that an `int64_t` can measure and at most
-- 255 arguments, then the next start runs all those commands in their order, and nothing else, on the
-- keyspace that it has loaded before.
pub load-Reach :
    (clock clock' : Clock) (rolls : ℕ → ℕ → Rolls) (epoll : Bool) (fd : ℕ) (now : ℤ)
    (router : CommandRouter) (file : Option Bytes) (old : List RespCommand) (system : System)
    (h : Host) (db : Dict) (last : RespCommand) (torn rest : Bytes)
    → AreWrites old
    → IsLoggable last
    → serialize last ≡ torn ++ rest
    → rest ≢ []
    → (path : Reach system
        (init clock rolls (some fd) (new_host epoll now router file (log_of old))).1
        h)
    → (h.server.aof.file ≡ log_of old ++ log_of (writes_of path))
      × (load_persisted_data clock' router db (h.server.aof.file ++ torn)
          ≡ run_all clock' 0 (old ++ writes_of path) router db)
unfolding init new_host open_log concat
load-Reach clock clock' rolls epoll fd now router file old system h db last torn rest w k e more
      path =
    let l = Reach-IsLogging router (log_of old) path (record {
      same_router = refl;
      all = tt;
      log = sym (append-nil (log_of old));
      writable = λ e. refl;
    }) in
    (
      l.log,
      ap (λ file. load_persisted_data clock' router db (file ++ torn))
            (l.log ∙ sym (log_of-append old (writes_of path)))
          ∙ load-log_of clock' router db (old ++ writes_of path) last torn rest
              (AreWrites-append old (writes_of path) w l.all) k e more,
    )
