-- ===== src/Router.antt =====
-- src/command/router.h and src/command/router.cpp, with the registrations of the command files and
-- of `RegisterServerCommands` in src/server.cpp.
pub mod Laws
pub mod WellFormed
use redis_like.Base.{
  ℕ, Option, none, some, Bool, List, [], ◌∷◌, ◌++◌, Bytes, codes, upper, ℤ, Map, find, put, has,
}
use redis_like.Resp.{RespCommand, error, bulk_string, ok_reply, pong, empty_array}
use redis_like.Dict.{Dict}
use redis_like.Command.Context.{Handler}
use redis_like.Command.Strings.{set_cmd, get_cmd}
use redis_like.Command.Keys.{
  del_cmd, exists_cmd, expire_cmd, ttl_cmd, pexpire_cmd, pttl_cmd, type_cmd, keys_cmd,
}
use redis_like.Command.Lists.{
  lpush_cmd, rpush_cmd, lpop_cmd, rpop_cmd, llen_cmd, lrange_cmd, lindex_cmd,
}
use redis_like.Command.Hashes.{
  hset_cmd, hget_cmd, hdel_cmd, hexists_cmd, hkeys_cmd, hvals_cmd, hgetall_cmd, hlen_cmd,
  hstrlen_cmd,
}
use redis_like.Command.Sets.{
  Draws, sadd_cmd, srem_cmd, sismember_cmd, smembers_cmd, scard_cmd, spop_cmd,
}
use redis_like.Command.SortedSets.{
  DoubleText, zadd_cmd, zrem_cmd, zscore_cmd, zrank_cmd, zrevrank_cmd, zrange_cmd, zrevrange_cmd,
  zcard_cmd,
}
use redis_like.Ds.SkipList.{Rolls}

abbrev pub CommandRouter : Type 0
CommandRouter = Map Handler

-- `Normalize`
abbrev pub normalize : Bytes → Bytes
normalize = upper

unfoldable pub register : Bytes → Handler → CommandRouter → CommandRouter
register name handler table = put (normalize name) handler table

unfoldable pub knows : CommandRouter → Bytes → Bool
knows table name = has name table

abbrev pub unknown_command : Bytes → Bytes
unknown_command name = error (codes "ERR unknown command '" ++ (name ++ codes "'"))

unfoldable pub execute : CommandRouter → RespCommand → ℤ → Dict → Bytes × Dict
execute table cmd now db = elim (find (normalize cmd.name) table) [
  | none ↦ (unknown_command cmd.name, db)
  | some handler ↦ handler cmd.args now db
]

unfoldable pub ping_cmd : List Bytes → ℤ → Dict → Bytes × Dict
ping_cmd [] now db = (pong, db)
ping_cmd (text ∷ _) now db = (bulk_string text, db)

unfoldable pub command_cmd : List Bytes → ℤ → Dict → Bytes × Dict
command_cmd args now db = (empty_array, db)

unfoldable pub quit_cmd : List Bytes → ℤ → Dict → Bytes × Dict
quit_cmd args now db = (ok_reply, db)

-- the registrations in their order
unfoldable pub register_all : List (Bytes × Handler) → CommandRouter → CommandRouter
register_all [] table = table
register_all ((name, handler) ∷ more) table = register_all more (register name handler table)

unfoldable pub register_server_commands : CommandRouter → CommandRouter
register_server_commands =
    register_all
      ((codes "PING", ping_cmd) ∷ (codes "COMMAND", command_cmd) ∷ (codes "QUIT", quit_cmd) ∷ [])

unfoldable pub register_string_commands : CommandRouter → CommandRouter
register_string_commands = register_all ((codes "SET", set_cmd) ∷ (codes "GET", get_cmd) ∷ [])

unfoldable pub register_key_commands : CommandRouter → CommandRouter
register_key_commands = register_all (
    (codes "DEL", del_cmd)
    ∷ (codes "EXISTS", exists_cmd)
    ∷ (codes "EXPIRE", expire_cmd)
    ∷ (codes "TTL", ttl_cmd)
    ∷ (codes "PEXPIRE", pexpire_cmd)
    ∷ (codes "PTTL", pttl_cmd)
    ∷ (codes "TYPE", type_cmd)
    ∷ (codes "KEYS", keys_cmd)
    ∷ [])

unfoldable pub register_hash_commands : CommandRouter → CommandRouter
register_hash_commands = register_all (
    (codes "HSET", hset_cmd)
    ∷ (codes "HGET", hget_cmd)
    ∷ (codes "HDEL", hdel_cmd)
    ∷ (codes "HEXISTS", hexists_cmd)
    ∷ (codes "HKEYS", hkeys_cmd)
    ∷ (codes "HVALS", hvals_cmd)
    ∷ (codes "HGETALL", hgetall_cmd)
    ∷ (codes "HLEN", hlen_cmd)
    ∷ (codes "HSTRLEN", hstrlen_cmd)
    ∷ [])

unfoldable pub register_list_commands : CommandRouter → CommandRouter
register_list_commands = register_all (
    (codes "LPUSH", lpush_cmd)
    ∷ (codes "RPUSH", rpush_cmd)
    ∷ (codes "LPOP", lpop_cmd)
    ∷ (codes "RPOP", rpop_cmd)
    ∷ (codes "LLEN", llen_cmd)
    ∷ (codes "LRANGE", lrange_cmd)
    ∷ (codes "LINDEX", lindex_cmd)
    ∷ [])

-- with what SPOP draws
unfoldable pub register_set_commands : Draws → CommandRouter → CommandRouter
register_set_commands draw = register_all (
    (codes "SADD", sadd_cmd)
    ∷ (codes "SREM", srem_cmd)
    ∷ (codes "SISMEMBER", sismember_cmd)
    ∷ (codes "SMEMBERS", smembers_cmd)
    ∷ (codes "SCARD", scard_cmd)
    ∷ (codes "SPOP", spop_cmd draw)
    ∷ [])

-- with the reading and writing of doubles, and what the generators of the skip lists give
unfoldable pub register_zset_commands : DoubleText → (ℕ → Rolls) → CommandRouter → CommandRouter
register_zset_commands text rolls = register_all (
    (codes "ZADD", zadd_cmd text rolls)
    ∷ (codes "ZREM", zrem_cmd)
    ∷ (codes "ZSCORE", zscore_cmd text)
    ∷ (codes "ZRANK", zrank_cmd)
    ∷ (codes "ZREVRANK", zrevrank_cmd)
    ∷ (codes "ZRANGE", zrange_cmd text)
    ∷ (codes "ZREVRANGE", zrevrange_cmd text)
    ∷ (codes "ZCARD", zcard_cmd)
    ∷ [])

-- the table that the constructor `RedisServer()` fills
unfoldable pub server_commands : Draws → DoubleText → (ℕ → Rolls) → CommandRouter
server_commands draw text rolls = register_zset_commands text rolls (
    register_set_commands draw (
      register_list_commands (
        register_hash_commands
          (register_key_commands (register_string_commands (register_server_commands []))))))
