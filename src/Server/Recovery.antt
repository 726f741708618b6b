-- ===== src/Server/Recovery.antt =====
-- What a restart makes of the log of a run.
use redis_like.Base.{
  ℕ, suc, ◌≡◌, ◌≢◌, refl, ◌∙◌, ap, Bool, true, false, List, [], ◌∷◌, ◌++◌, arith, All, Bytes, codes,
  same, same_iff, is_empty, if◌then◌else◌, Bool-cases, inl, inr, Option-cases, upper, find,
  has-find,
}
use redis_like.Resp.{RespCommand}
use redis_like.Dict.{Dict}
use redis_like.Router.{CommandRouter, normalize, knows, execute}
use redis_like.Aof.{
  AofLogger, open_log, call_all, replay, serialize, contains, is_write_command, append_to_aof,
}
use redis_like.Aof.Replay.{IsLoggable, append_all, replay-append_all}
use redis_like.Server.{
  Client, RedisServer, Clock, respond, is_logged, process_command, process_all, load_command,
  load_persisted_data, is_skipped,
}

-- the commands of a run that the server appends to its log, in their order
abbrev pub logged : Clock → ℕ → List RespCommand → CommandRouter → Dict → List RespCommand
logged clock i [] router db = []
logged clock i (cmd ∷ cmds) router db =
    let rest = logged clock (suc i) cmds router (respond router cmd (clock i) db).1 in
    if is_logged cmd (respond router cmd (clock i) db).0 then cmd ∷ rest else rest

-- the commands one after the other, by the router alone
abbrev pub run_all : Clock → ℕ → List RespCommand → CommandRouter → Dict → Dict
run_all clock i [] router db = db
run_all clock i (cmd ∷ cmds) router db =
    run_all clock (suc i) cmds router (execute router cmd (clock i) db).1

append-if :
    (b : Bool) (log : AofLogger) (cmd : RespCommand) (cmds : List RespCommand)
    → append_all (if b then append_to_aof log cmd else log) cmds
      ≡ append_all log (if b then cmd ∷ cmds else cmds)
unfolding append_all
append-if true log cmd cmds = refl
append-if false log cmd cmds = refl

pub aof-process_all :
    (clock : Clock) (i : ℕ) (cmds : List RespCommand) (server : RedisServer) (client : Client)
    → (process_all clock i cmds server client).0.aof
      ≡ append_all server.aof (logged clock i cmds server.router server.db)
unfolding process_all append_all process_command
aof-process_all clock i [] server client = refl
aof-process_all clock i (cmd ∷ cmds) server client =
    let (response, db) = respond server.router cmd (clock i) server.db in
    aof-process_all clock (suc i) cmds (process_command (clock i) cmd server client).0
      (process_command (clock i) cmd server client).1
    ∙ append-if (is_logged cmd response) server.aof cmd (logged clock (suc i) cmds server.router db)

abbrev pub IsWrite : RespCommand → Type 0
IsWrite cmd = is_write_command (normalize cmd.name) ≡ true

All-if :
    (P : RespCommand → Type 0) (b : Bool) (cmd : RespCommand) (cmds : List RespCommand)
    → (b ≡ true → P cmd)
    → All P cmds
    → All P (if b then cmd ∷ cmds else cmds)
All-if P true cmd cmds h k = (h refl, k)
All-if P false cmd cmds h k = k

pub logged-IsWrite :
    (clock : Clock) (i : ℕ) (cmds : List RespCommand) (router : CommandRouter) (db : Dict)
    → All IsLoggable cmds
    → All (λ cmd. IsWrite cmd × IsLoggable cmd) (logged clock i cmds router db)
unfolding is_logged
logged-IsWrite clock i [] router db h = tt
logged-IsWrite clock i (cmd ∷ cmds) router db h =
    All-if (λ c. IsWrite c × IsLoggable c) (is_logged cmd (respond router cmd (clock i) db).0) cmd
      (logged clock (suc i) cmds router (respond router cmd (clock i) db).1)
      (λ e. (ground arith, h.0))
      (logged-IsWrite clock (suc i) cmds router (respond router cmd (clock i) db).1 h.1)

-- a name of a write command is not one that is no write command
differs :
    (name other : Bytes)
    → is_write_command name ≡ true
    → is_write_command other ≡ false
    → same name other ≡ false
differs name other h k = elim (Bool-cases (same name other)) [
  | inl e ↦ let alike = (same_iff name other).0 e in cc (ap is_write_command alike, h, k)
  | inr e ↦ e
]

write-is_skipped : (name : Bytes) → is_write_command name ≡ true → is_skipped name ≡ false
write-is_skipped name h =
    let quit =
      differs name (codes "QUIT") h (unfold is_write_command contains same upper in refl) in
    let ping =
      differs name (codes "PING") h (unfold is_write_command contains same upper in refl) in
    let command =
      differs name (codes "COMMAND") h (unfold is_write_command contains same upper in refl) in
    rw (quit, ping, command)

load_command-IsWrite :
    (clock : Clock) (router : CommandRouter) (i : ℕ) (db : Dict) (cmd : RespCommand)
    → IsWrite cmd
    → load_command clock router (i, db) cmd ≡ (suc i, (execute router cmd (clock i) db).1)
unfolding load_command knows execute
load_command-IsWrite clock router i db cmd h =
    rw (write-is_skipped (normalize cmd.name) h)
      (elim (Option-cases (find (normalize cmd.name) router)) [
        | inl e ↦ ground (arith, has-find (normalize cmd.name) router)
        | inr (handler, e) ↦ ground (arith, has-find (normalize cmd.name) router)
      ])

named : (name : Bytes) → is_write_command (normalize name) ≡ true → is_empty name ≡ false
unfolding is_write_command contains same upper
named [] h = cc
named (c ∷ name) h = refl

pub All-IsLoggable :
    (cmds : List RespCommand) → All (λ cmd. IsWrite cmd × IsLoggable cmd) cmds → All IsLoggable cmds
All-IsLoggable [] h = tt
All-IsLoggable (cmd ∷ cmds) h = (h.0.1, All-IsLoggable cmds h.1)

pub call_all-load_command :
    (clock : Clock) (router : CommandRouter) (i : ℕ) (db : Dict) (cmds : List RespCommand)
    → All (λ cmd. IsWrite cmd × IsLoggable cmd) cmds
    → (call_all (load_command clock router) cmds (i, db)).1 ≡ run_all clock i cmds router db
unfolding call_all
call_all-load_command clock router i db [] h = refl
call_all-load_command clock router i db (cmd ∷ cmds) h =
    let callback = load_command clock router in
    ap (λ b. (call_all callback cmds (if b then (i, db) else callback (i, db) cmd)).1)
      (named cmd.name h.0.0)
    ∙ ap (λ s. (call_all callback cmds s).1) (load_command-IsWrite clock router i db cmd h.0.0)
    ∙ call_all-load_command clock router (suc i) (execute router cmd (clock i) db).1 cmds h.1

-- A server whose log was opened on an empty file runs commands and stops while it appends one
-- more, each with at most 255 arguments and tokens that an `int64_t` can measure. At its next
-- start it runs, on the keyspace that it has loaded before, exactly the commands of the run that
-- were write commands and were not refused with an error of the kind ERR, in their order.
pub load-process_all :
    (clock clock' : Clock) (cmds : List RespCommand) (server : RedisServer) (client : Client)
    (log : AofLogger) (db : Dict) (last : RespCommand) (torn rest : Bytes)
    → server.aof ≡ open_log log
    → log.file ≡ []
    → All IsLoggable cmds
    → IsLoggable last
    → serialize last ≡ torn ++ rest
    → rest ≢ []
    → load_persisted_data clock' server.router db
        ((process_all clock 0 cmds server client).0.aof.file ++ torn)
      ≡ run_all clock' 0 (logged clock 0 cmds server.router server.db) server.router db
unfolding load_persisted_data
load-process_all clock clock' cmds server client log db last torn rest opened empty h k e more =
    let writes = logged clock 0 cmds server.router server.db in
    let allowed = logged-IsWrite clock 0 cmds server.router server.db h in
    let callback = load_command clock' server.router in
    ap (λ aof. (replay callback (aof.file ++ torn) (0, db)).1.1)
      (aof-process_all clock 0 cmds server client ∙ ap (λ aof. append_all aof writes) opened)
    ∙ ap (λ r. r.1.1)
        (replay-append_all callback (0, db) log writes last torn rest empty
          (All-IsLoggable writes allowed) k e more)
    ∙ call_all-load_command clock' server.router 0 db writes allowed
