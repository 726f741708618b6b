-- ===== src/Aof.antt =====
-- src/storage/aof.h and src/storage/aof.cpp, with `AppendToAof` of src/server.cpp. The file is the
-- list of its bytes; that the system writes and reads it back is taken for granted.
pub mod Replay
use mathlib.Core.List.{foldl}
use redis_like.Base.{
  ℕ, Bool, true, false, ◌||◌, List, [], ◌∷◌, ◌++◌, map, Bytes, codes, same, upper, if◌then◌else◌,
  length, is_empty,
}
use redis_like.Resp.{RespCommand, bulk_string, array, feed}

pub record AofLogger : Type 0 where
  pub file : Bytes
  pub is_open : Bool

-- `Open`, where the system opens the file: what it holds is kept
unfoldable pub open_log : AofLogger → AofLogger
open_log log = record log { is_open = true }

unfoldable pub append : AofLogger → Bytes → AofLogger
append log resp = if log.is_open then record log { file = log.file ++ resp } else log

unfoldable pub close : AofLogger → AofLogger
close log = record log { is_open = false }

-- `if (!cmd.name.empty()) callback(cmd);` for each command, on the state of the callback
unfoldable pub call_all {ℓ} : {S : Type ℓ} → (S → RespCommand → S) → List RespCommand → S → S
call_all callback [] s = s
call_all callback (cmd ∷ cmds) s =
    call_all callback cmds (if is_empty cmd.name then s else callback s cmd)

-- `Replay`: the number of commands, and the state after the callbacks
unfoldable pub replay {ℓ} : {S : Type ℓ} → (S → RespCommand → S) → Bytes → S → ℕ × S
replay callback file s = let cmds = (feed [] file).0 in (length cmds, call_all callback cmds s)

abbrev writes : List Bytes
writes =
    codes "SET"
    ∷ codes "DEL"
    ∷ codes "HSET"
    ∷ codes "HDEL"
    ∷ codes "LPUSH"
    ∷ codes "RPUSH"
    ∷ codes "LPOP"
    ∷ codes "RPOP"
    ∷ codes "SADD"
    ∷ codes "SREM"
    ∷ codes "SPOP"
    ∷ codes "ZADD"
    ∷ codes "ZREM"
    ∷ codes "EXPIRE"
    ∷ codes "PEXPIRE"
    ∷ []

unfoldable pub contains : List Bytes → Bytes → Bool
contains [] name = false
contains (w ∷ ws) name = same w name || contains ws name

unfoldable pub is_write_command : Bytes → Bool
is_write_command name = contains writes (upper name)

-- the text that `AppendToAof` writes for a command
unfoldable pub serialize : RespCommand → Bytes
serialize cmd = array (bulk_string cmd.name ∷ map bulk_string cmd.args)

unfoldable pub append_to_aof : AofLogger → RespCommand → AofLogger
append_to_aof log cmd = append log (serialize cmd)
