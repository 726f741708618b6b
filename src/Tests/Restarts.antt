-- ===== src/Tests/Restarts.antt =====
-- Instances of the theorems on the router and on the restart of the server.
use mathlib.Core.Path.{subst}
use redis_like.Base.{
  ℕ, none, sym, has, All, IsDistinct, length, ◌+◌, ◌≡◌, refl, false, some, [], ◌∷◌, ◌++◌, arith,
  codes, same, pos, find, put, upper,
}
use redis_like.Resp.{RespCommand, array, bulk_string, concat, feed}
use redis_like.Object.{is_expired}
use redis_like.Expire.View.{view}
use redis_like.Command.Lists.{rpush_cmd, push_with, push_back_all}
use redis_like.Router.{
  knows, execute, register, register_all, register_server_commands, register_list_commands,
}
use redis_like.Aof.{AofLogger, open_log, serialize}
use redis_like.Aof.Replay.{IsLoggable}
use redis_like.Server.{
  Client, RedisServer, Clock, process_all, process_command, respond, on_bytes, load_persisted_data,
}
use redis_like.Dict
use redis_like.Dict.{Dict}
use redis_like.Expire.{lazy_check}
use redis_like.Command.Context.{get_or_create, check_expire}
use redis_like.Ds.SkipList.{Rolls}
use redis_like.Rdb.Saved.{FitsEntry}
use redis_like.Server.Lifecycle
use redis_like.Server.Lifecycle.{load_snapshot}
use redis_like.Server.Packets.{on_bytes-append}
use redis_like.Server.Recovery.{logged, run_all, load-process_all}
use redis_like.Server.Restart.{lasting_list, rpush, load-rpush_cmd}

abbrev ping : RespCommand
ping = record { name = codes "piNG"; args = codes "x" ∷ [] }

abbrev clock : Clock
clock i = pos (1_000 + i)

abbrev later : Clock
later i = pos (9_000 + i)

abbrev closed_log : AofLogger
closed_log = record { file = []; is_open = false }

abbrev server : RedisServer
server = record {
  db = (codes "l", lasting_list (codes "a" ∷ [])) ∷ [];
  router = register_list_commands (register_server_commands []);
  aof = open_log closed_log;
}

abbrev client : Client
client = record { read_buf = []; write_buf = []; close_after_write = false; writable_mask = false }

abbrev push_b : RespCommand
push_b = rpush (codes "l") (codes "b") []

push_b-IsLoggable : IsLoggable push_b
push_b-IsLoggable = (omega arith, (omega arith, (omega arith, (omega arith, tt))))

ping-IsLoggable : IsLoggable ping
ping-IsLoggable = (omega arith, (omega arith, (omega arith, tt)))

load-process_all_example :
    load_persisted_data later server.router [] (
      (process_all clock 0 (push_b ∷ ping ∷ push_b ∷ []) server client).0.aof.file
      ++ codes "*3\r\n$5")
    ≡ run_all later 0
        (logged clock 0 (push_b ∷ ping ∷ push_b ∷ []) server.router server.db)
        server.router
        []
unfolding serialize array bulk_string concat
load-process_all_example =
    load-process_all clock later (push_b ∷ ping ∷ push_b ∷ []) server client closed_log [] push_b
      (codes "*3\r\n$5") (codes "\r\nRPUSH\r\n$1\r\nl\r\n$1\r\nb\r\n") refl refl
      (push_b-IsLoggable, (ping-IsLoggable, (push_b-IsLoggable, tt))) push_b-IsLoggable refl
      (λ e. cc e)

registered : find (codes "RPUSH") server.router ≡ some rpush_cmd
unfolding find put same upper register register_all register_list_commands register_server_commands
registered = refl

list_seen : view server.db (clock 0) (codes "l") ≡ some (lasting_list (codes "a" ∷ []))
unfolding view is_expired find same
list_seen = refl

-- the keyspace that is saved
abbrev pushed_db : Dict
pushed_db = (codes "l", lasting_list (codes "a" ∷ codes "b" ∷ [])) ∷ []

db_pushed : (process_all clock 0 (push_b ∷ []) server client).0.db ≡ pushed_db
unfolding process_all process_command respond same upper knows has register_list_commands
    register_all register put register_server_commands execute find rpush_cmd push_with
    get_or_create Dict.get check_expire lazy_check is_expired Dict.store Dict.set push_back_all
db_pushed = refl

pushed_db-IsDistinct : IsDistinct pushed_db
unfolding has
pushed_db-IsDistinct = (refl, tt)

pushed_db-Fits : All FitsEntry pushed_db
pushed_db-Fits = ((omega arith, refl, tt, (omega arith, (omega arith, (omega arith, tt)))), tt)

abbrev no_coins : ℕ → ℕ → Rolls
no_coins i k n = 0

load-rpush_cmd_example :
    view
      (load_persisted_data later server.router
        (load_snapshot no_coins
          (Lifecycle.stop (process_all clock 0 (push_b ∷ []) server client).0 none).1
          [])
        (Lifecycle.stop (process_all clock 0 (push_b ∷ []) server client).0 none).0.aof.file)
      (later 0)
      (codes "l")
    ≡ some (lasting_list (codes "a" ∷ codes "b" ∷ codes "b" ∷ []))
load-rpush_cmd_example =
    load-rpush_cmd clock later no_coins none (codes "l") (codes "b") [] (codes "a" ∷ []) server
      client closed_log registered refl refl push_b-IsLoggable list_seen
      (subst (λ (db : Dict). IsDistinct db) (sym db_pushed) pushed_db-IsDistinct)
      (subst (λ (db : Dict). All FitsEntry db) (sym db_pushed) pushed_db-Fits)

on_bytes-append_example :
    on_bytes clock 0
      (codes "*1\r\n$4\r\nPING\r\n*3\r\n$5\r\nRPU" ++ codes "SH\r\n$1\r\nl\r\n$1\r\nb\r\n")
      server
      client
    ≡ on_bytes clock
        (0 + length (feed [] (codes "*1\r\n$4\r\nPING\r\n*3\r\n$5\r\nRPU")).0)
        (codes "SH\r\n$1\r\nl\r\n$1\r\nb\r\n")
        (on_bytes clock 0 (codes "*1\r\n$4\r\nPING\r\n*3\r\n$5\r\nRPU") server client).0
        (on_bytes clock 0 (codes "*1\r\n$4\r\nPING\r\n*3\r\n$5\r\nRPU") server client).1
on_bytes-append_example =
    on_bytes-append clock 0 (codes "*1\r\n$4\r\nPING\r\n*3\r\n$5\r\nRPU")
      (codes "SH\r\n$1\r\nl\r\n$1\r\nb\r\n") server client
