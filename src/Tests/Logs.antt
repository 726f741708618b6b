-- ===== src/Tests/Logs.antt =====
-- The log of the server at a concrete run.
use redis_like.Base.{◌≡◌, refl, true, none, some, [], ◌∷◌, ◌++◌, arith, codes, pos, same, upper}
use redis_like.Resp.{RespCommand, array, bulk_string}
use redis_like.Aof.{serialize, is_write_command, contains}
use redis_like.Router.{server_commands}
use redis_like.Server.{load_persisted_data}
use redis_like.Server.Recovery.{run_all}
use redis_like.Server.Host.{System, Host}
use redis_like.Server.Host.Program.{tick, new_host, init, stop}
use redis_like.Server.Host.Reached.{Reach, here, next, ticks, stops}
use redis_like.Server.Host.Writes.{AreWrites, log_of}
use redis_like.Server.Host.Logged.{writes_of, load-Reach}
use redis_like.Tests.Hosts.{world, ticking, no_coins, sevens, ones, coins}

abbrev set_k : RespCommand
set_k = record { name = codes "SET"; args = codes "k" ∷ codes "v" ∷ [] }

-- the client of `world`, who sends SET k v
abbrev writer : System
writer = record world { recv = λ n fd. some (serialize set_k) }

abbrev push_l : RespCommand
push_l = record { name = codes "RPUSH"; args = codes "l" ∷ codes "a" ∷ [] }

abbrev resumed : Host
resumed =
    (init ticking no_coins (some 3)
      (new_host true (pos 0) (server_commands sevens ones coins) none (log_of (push_l ∷ [])))).1

push_l-IsWrite : AreWrites (push_l ∷ [])
unfolding is_write_command contains same upper
push_l-IsWrite = ((refl, (omega arith, (omega arith, (omega arith, (omega arith, tt))))), tt)

abbrev path : Reach writer resumed (stop (tick writer resumed))
path = next (next here (ticks resumed)) (stops (tick writer resumed))

load-Reach_example :
    ((stop (tick writer resumed)).server.aof.file ≡ log_of (push_l ∷ []) ++ log_of (writes_of path))
    × (load_persisted_data ticking
          (server_commands sevens ones coins)
          []
          ((stop (tick writer resumed)).server.aof.file ++ codes "*3\r\n$5\r\nRPU")
        ≡ run_all ticking 0
            ((push_l ∷ []) ++ writes_of path)
            (server_commands sevens ones coins)
            [])
unfolding serialize array bulk_string
load-Reach_example =
    load-Reach ticking ticking no_coins true 3 (pos 0) (server_commands sevens ones coins) none
      (push_l ∷ []) writer (stop (tick writer resumed)) [] push_l (codes "*3\r\n$5\r\nRPU")
      (codes "SH\r\n$1\r\nl\r\n$1\r\na\r\n") push_l-IsWrite (push_l-IsWrite.0.1) refl (λ e. cc) path
