-- ===== src/Server/Lifecycle.antt =====
-- The snapshot in `LoadPersistedData` and in `Stop` of src/server.cpp.
-- The two files are the lists of their bytes; `none` is a snapshot that is not there.
use redis_like.Base.{ℕ, Option, none, some, Bytes, length, ◌==◌, if◌then◌else◌}
use redis_like.Ds.SkipList.{Rolls}
use redis_like.Dict.{Dict}
use redis_like.Aof
use redis_like.Aof.{AofLogger}
use redis_like.Rdb.{save, load}
use redis_like.Server.{RedisServer}

-- `Stop`, as to the data, on the file of the snapshot: it is written if the keyspace has keys, and the
-- log is closed and stays as it is
unfoldable pub stop : RedisServer → Option Bytes → RedisServer × Option Bytes
unfolding Aof.close
stop server file = (
  record server { aof = Aof.close server.aof },
  if length server.db == 0 then file else some (save server.db),
)

-- `rdb_.Load(db_)`; a snapshot that cannot be opened leaves the keyspace
unfoldable pub load_snapshot : (ℕ → ℕ → Rolls) → Option Bytes → Dict → Dict
load_snapshot rolls none db = db
load_snapshot rolls (some file) db = (load rolls file db).1
