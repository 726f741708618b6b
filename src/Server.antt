-- ===== src/Server.antt =====
-- `ProcessCommand`, the reading half of `OnClientEvent` and `LoadPersistedData` of src/server.cpp,
-- on the keyspace, the router and the log. What `Clock::now()` gives when it is called for the i-th
-- time is an argument.
pub mod Recovery
pub mod Restart
pub mod Packets
pub mod Lifecycle
pub mod Host
use redis_like.Base.{
  ℕ, zero, suc, Bool, true, false, not, ◌&&◌, ◌||◌, ◌==◌, List, [], ◌∷◌, ◌++◌, Bytes, codes, same,
  if◌then◌else◌, ℤ,
}
use redis_like.Resp.{RespCommand, ok_reply, feed}
use redis_like.Dict.{Dict}
use redis_like.Router.{CommandRouter, normalize, knows, execute, unknown_command}
use redis_like.Aof.{AofLogger, replay, is_write_command, append_to_aof}

pub record Client : Type 0 where
  pub read_buf : Bytes
  pub write_buf : Bytes
  pub close_after_write : Bool
  pub writable_mask : Bool

pub record RedisServer : Type 0 where
  pub db : Dict
  pub router : CommandRouter
  pub aof : AofLogger

abbrev pub Clock : Type 0
Clock = ℕ → ℤ

-- `response`, and the keyspace after the command
unfoldable pub respond : CommandRouter → RespCommand → ℤ → Dict → Bytes × Dict
respond router cmd now db =
    if same (normalize cmd.name) (codes "QUIT")
    then (ok_reply, db)
    else if knows router (normalize cmd.name)
    then execute router cmd now db
    else (unknown_command cmd.name, db)

-- `s.find(prefix) == 0`
unfoldable pub starts_with : Bytes → Bytes → Bool
starts_with [] s = true
starts_with (c ∷ prefix) [] = false
starts_with (c ∷ prefix) (d ∷ s) = c == d && starts_with prefix s

-- the guard of `AppendToAof`
unfoldable pub is_logged : RespCommand → Bytes → Bool
is_logged cmd response =
    is_write_command (normalize cmd.name) && not (starts_with (codes "-ERR") response)

unfoldable pub send_response : Client → Bytes → Client
send_response client resp = record client { write_buf = client.write_buf ++ resp }

unfoldable pub process_command : ℤ → RespCommand → RedisServer → Client → RedisServer × Client
process_command now cmd server client =
    let (response, db) = respond server.router cmd now server.db in
    let quits = same (normalize cmd.name) (codes "QUIT") in
    let aof = if is_logged cmd response then append_to_aof server.aof cmd else server.aof in
    (
      record server { db = db; aof = aof },
      send_response (record client { close_after_write = quits || client.close_after_write })
          response,
    )

-- the loop over the commands of one `Feed`, from the i-th reading of the clock on
unfoldable pub process_all :
    Clock → ℕ → List RespCommand → RedisServer → Client → RedisServer × Client
process_all clock i [] server client = (server, client)
process_all clock i (cmd ∷ cmds) server client =
    let (server', client') = process_command (clock i) cmd server client in
    process_all clock (suc i) cmds server' client'

-- `OnClientEvent` behind a `recv` that gave some bytes
unfoldable pub on_bytes : Clock → ℕ → Bytes → RedisServer → Client → RedisServer × Client
on_bytes clock i bytes server client =
    let (cmds, rest) = feed client.read_buf bytes in
    process_all clock i cmds server (record client { read_buf = rest })

abbrev pub is_skipped : Bytes → Bool
is_skipped name =
    same name (codes "QUIT") || (same name (codes "PING") || same name (codes "COMMAND"))

-- the callback of `LoadPersistedData`, on the readings of the clock so far and the keyspace
unfoldable pub load_command : Clock → CommandRouter → ℕ × Dict → RespCommand → ℕ × Dict
load_command clock router (i, db) cmd =
    let name = normalize cmd.name in
    if is_skipped name
    then (i, db)
    else (suc i, if knows router name then (execute router cmd (clock i) db).1 else db)

-- `LoadPersistedData`, with the keyspace that `RdbSaver::Load` has filled
unfoldable pub load_persisted_data : Clock → CommandRouter → Dict → Bytes → Dict
load_persisted_data clock router db file = (replay (load_command clock router) file (0, db)).1.1
