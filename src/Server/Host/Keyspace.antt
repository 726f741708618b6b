-- ===== src/Server/Host/Keyspace.antt =====
-- Whatever the server of src/server.cpp does, its keyspace stays well-formed.
use redis_like.Base.{
  ℕ, suc, Bool, Option, some, List, [], ◌∷◌, Bytes, codes, same, if◌then◌else◌, inl, inr,
  Bool-cases, ℤ, is_empty,
}
use redis_like.Resp.{RespCommand, feed}
use redis_like.Dict.{Dict}
use redis_like.Command.WellFormed.{IsWell, IsWell-but, del-IsWell}
use redis_like.Command.WellFormed.Typed.{if-IsWell}
use redis_like.Expire.Periodic.Kept.{periodic_expire_check-kept}
use redis_like.Router.{CommandRouter, normalize, knows, execute, server_commands}
use redis_like.Router.WellFormed.{AllKeep, execute-IsWell, server_commands-AllKeep}
use redis_like.Aof.{call_all, replay, open_log}
use redis_like.Server.{
  Client, RedisServer, Clock, respond, process_command, process_all, on_bytes, is_skipped,
  load_command, load_persisted_data,
}
use redis_like.Server.Host.{System, Host}
use redis_like.Server.Host.Program.{new_host, init}
use redis_like.Server.Host.Data.{Reach-kept}
use redis_like.Expire.Periodic.{periodic_expire_check, Draws}
use redis_like.Server.Host.Reached.{Reach}
use redis_like.Server.Lifecycle
use redis_like.Server.Lifecycle.{load_snapshot}
use redis_like.Dict
use redis_like.Ds.SkipList.{Rolls}
use redis_like.Command.Sets
use redis_like.Command.SortedSets.{DoubleText}

-- the keyspace is well-formed, and the commands keep it so
abbrev pub IsServing : RedisServer → Type 0
IsServing server = AllKeep server.router × IsWell server.db

respond-IsWell :
    (router : CommandRouter) (cmd : RespCommand) (now : ℤ) (db : Dict)
    → AllKeep router
    → IsWell db
    → IsWell (respond router cmd now db).1
unfolding respond
respond-IsWell router cmd now db all w =
    if-IsWell (same (normalize cmd.name) (codes "QUIT")) _ _ w (
      if-IsWell (knows router (normalize cmd.name)) (execute router cmd now db) _
        (execute-IsWell router cmd now db all w) w)

process_all-IsServing :
    (clock : Clock) (i : ℕ) (cmds : List RespCommand) (server : RedisServer) (client : Client)
    → IsServing server
    → IsServing (process_all clock i cmds server client).0
unfolding process_all process_command
process_all-IsServing clock i [] server client s = s
process_all-IsServing clock i (cmd ∷ cmds) server client s =
    let next = process_command (clock i) cmd server client in
    process_all-IsServing clock (suc i) cmds next.0 next.1
      (s.0, respond-IsWell server.router cmd (clock i) server.db s.0 s.1)

on_bytes-IsServing :
    (clock : Clock) (bytes : Bytes) (server : RedisServer) (client : Client)
    → IsServing server
    → IsServing (on_bytes clock 0 bytes server client).0
unfolding on_bytes
on_bytes-IsServing clock bytes server client s =
    let (cmds, rest) = feed client.read_buf bytes in
    process_all-IsServing clock 0 cmds server (record client { read_buf = rest }) s

purged-IsServing :
    (draw : Draws) (now last : ℤ) (server : RedisServer)
    → IsServing server
    → IsServing (record server { db = (periodic_expire_check draw now last server.db).1 })
unfolding Dict.del
purged-IsServing draw now last server s = (
  s.0,
  periodic_expire_check-kept IsWell (λ db key w. del-IsWell db key (IsWell-but key db w)) draw now
      last server.db s.1,
)

Reach-IsServing :
    {system : System} {h u : Host} → Reach system h u → IsServing h.server → IsServing u.server
unfolding Lifecycle.stop
Reach-IsServing path s =
    Reach-kept IsServing on_bytes-IsServing purged-IsServing (λ server file s. s) path s

load_command-IsWell :
    (clock : Clock) (router : CommandRouter) (s : ℕ × Dict) (cmd : RespCommand)
    → AllKeep router
    → IsWell s.1
    → IsWell (load_command clock router s cmd).1
unfolding load_command
load_command-IsWell clock router (i, db) cmd all w =
    elim (Bool-cases (is_skipped (normalize cmd.name))) [
      | inl e ↦ rw e w
      | inr e ↦ rw e (elim (Bool-cases (knows router (normalize cmd.name))) [
        | inl k ↦ rw k (execute-IsWell router cmd (clock i) db all w)
        | inr k ↦ rw k w
      ])
    ]

call_all-IsWell :
    (clock : Clock) (router : CommandRouter) (cmds : List RespCommand) (s : ℕ × Dict)
    → AllKeep router
    → IsWell s.1
    → IsWell (call_all (load_command clock router) cmds s).1
unfolding call_all
call_all-IsWell clock router [] s all w = w
call_all-IsWell clock router (cmd ∷ cmds) s all w =
    call_all-IsWell clock router cmds
      (if is_empty cmd.name then s else load_command clock router s cmd) all
      (if-IsWell (is_empty cmd.name) s (load_command clock router s cmd) w
        (load_command-IsWell clock router s cmd all w))

-- The server with the commands that its constructor registers, started on a socket, on any log and on
-- a snapshot whose keyspace is well-formed, such as none: after any ticks and stops, whatever is sent
-- to it, no key stands twice in the keyspace, no list, hash or set in it is empty, and no field of a
-- hash and no member of a set stands twice.
pub Reach-IsWell :
    (drawn : Sets.Draws) (text : DoubleText) (coins : ℕ → Rolls) (epoll : Bool) (clock : Clock)
    (rolls : ℕ → ℕ → Rolls) (fd : ℕ) (now : ℤ) (file : Option Bytes) (log : Bytes) (system : System)
    (h : Host)
    → IsWell (load_snapshot rolls file [])
    → Reach system
        (init clock rolls
          (some fd)
          (new_host epoll now (server_commands drawn text coins) file log)).1
        h
    → IsWell h.server.db
unfolding init new_host load_persisted_data replay open_log
Reach-IsWell drawn text coins epoll clock rolls fd now file log system h w path =
    let router = server_commands drawn text coins in
    let all = server_commands-AllKeep drawn text coins in
    let loaded = load_snapshot rolls file [] in
    (Reach-IsServing path (all, call_all-IsWell clock router (feed [] log).0 (0, loaded) all w)).1
