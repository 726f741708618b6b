-- ===== src/Router/WellFormed.antt =====
-- Every command of the table that the constructor of src/server.cpp fills keeps the keyspace
-- well-formed.
use mathlib.Core.Path.{subst}
use redis_like.Base.{
  ℕ, ◌≡◌, sym, ◌∙◌, Option, some, List, [], ◌∷◌, All, Bytes, same, if◌then◌else◌, arith, inl, inr,
  Bool-cases, Option-cases, ℤ, find, find-put,
}
use redis_like.Resp.{RespCommand}
use redis_like.Dict.{Dict}
use redis_like.Ds.SkipList.{Rolls}
use redis_like.Command.Context.{Handler}
use redis_like.Command.Sets.{Draws}
use redis_like.Command.SortedSets.{DoubleText}
use redis_like.Command.WellFormed.{IsWell, Keeps}
use redis_like.Command.WellFormed.Keys
use redis_like.Command.WellFormed.Lists
use redis_like.Command.WellFormed.Hashes
use redis_like.Command.WellFormed.Sets
use redis_like.Command.WellFormed.SortedSets
use redis_like.Router.{
  CommandRouter, normalize, register, register_all, execute, ping_cmd, command_cmd, quit_cmd,
  register_server_commands, register_string_commands, register_key_commands, register_hash_commands,
  register_list_commands, register_set_commands, register_zset_commands, server_commands,
}

-- every handler of the table keeps the keyspace well-formed
abbrev pub AllKeep : CommandRouter → Type 0
AllKeep table = (name : Bytes) (handler : Handler) → find name table ≡ some handler → Keeps handler

Keeps-if :
    (handler h : Handler) (name n : Bytes) (o : Option Handler)
    → Keeps handler
    → (o ≡ some h → Keeps h)
    → (if same name n then some handler else o) ≡ some h
    → Keeps h
Keeps-if handler h name n o keeps others e = elim (Bool-cases (same name n)) [
  | inl b ↦ let own : handler ≡ h = ground arith in subst Keeps own keeps
  | inr b ↦ others (rw b at e)
]

register-AllKeep :
    (name : Bytes) (handler : Handler) (table : CommandRouter)
    → Keeps handler
    → AllKeep table
    → AllKeep (register name handler table)
unfolding register
register-AllKeep name handler table keeps all n h e =
    Keeps-if handler h (normalize name) n (find n table) keeps (all n h)
      (sym (find-put (normalize name) n handler table) ∙ e)

register_all-AllKeep :
    (more : List (Bytes × Handler)) (table : CommandRouter)
    → All (λ entry. Keeps entry.1) more
    → AllKeep table
    → AllKeep (register_all more table)
unfolding register_all
register_all-AllKeep [] table keeps all = all
register_all-AllKeep ((name, handler) ∷ more) table keeps all =
    register_all-AllKeep more (register name handler table) keeps.1
      (register-AllKeep name handler table keeps.0 all)

ping_cmd-Keeps : Keeps ping_cmd
unfolding ping_cmd
ping_cmd-Keeps [] now db w = w
ping_cmd-Keeps (text ∷ _) now db w = w

command_cmd-Keeps : Keeps command_cmd
unfolding command_cmd
command_cmd-Keeps args now db w = w

quit_cmd-Keeps : Keeps quit_cmd
unfolding quit_cmd
quit_cmd-Keeps args now db w = w

empty-AllKeep : AllKeep []
unfolding find
empty-AllKeep name handler e = absurd (ground arith)

-- strings and keys, with the built-in commands
plain-AllKeep :
    AllKeep (register_key_commands (register_string_commands (register_server_commands [])))
unfolding register_key_commands register_string_commands register_server_commands
plain-AllKeep =
    register_all-AllKeep _ _
      (
        Keys.del_cmd-Keeps,
        (
          Keys.exists_cmd-Keeps,
          (
            Keys.expire_cmd-Keeps,
            (
              Keys.ttl_cmd-Keeps,
              (
                Keys.pexpire_cmd-Keeps,
                (Keys.pttl_cmd-Keeps, (Keys.type_cmd-Keeps, (Keys.keys_cmd-Keeps, tt))),
              ),
            ),
          ),
        ),
      )
      (register_all-AllKeep _ _ (Keys.set_cmd-Keeps, (Keys.get_cmd-Keeps, tt))
        (register_all-AllKeep _ _ (ping_cmd-Keeps, (command_cmd-Keeps, (quit_cmd-Keeps, tt)))
          empty-AllKeep))

hashes_lists-AllKeep :
    (table : CommandRouter)
    → AllKeep table
    → AllKeep (register_list_commands (register_hash_commands table))
unfolding register_list_commands register_hash_commands
hashes_lists-AllKeep table all =
    register_all-AllKeep _ _
      (
        Lists.lpush_cmd-Keeps,
        (
          Lists.rpush_cmd-Keeps,
          (
            Lists.lpop_cmd-Keeps,
            (
              Lists.rpop_cmd-Keeps,
              (Lists.llen_cmd-Keeps, (Lists.lrange_cmd-Keeps, (Lists.lindex_cmd-Keeps, tt))),
            ),
          ),
        ),
      )
      (register_all-AllKeep _ _
        (
          Hashes.hset_cmd-Keeps,
          (
            Hashes.hget_cmd-Keeps,
            (
              Hashes.hdel_cmd-Keeps,
              (
                Hashes.hexists_cmd-Keeps,
                (
                  Hashes.hkeys_cmd-Keeps,
                  (
                    Hashes.hvals_cmd-Keeps,
                    (
                      Hashes.hgetall_cmd-Keeps,
                      (Hashes.hlen_cmd-Keeps, (Hashes.hstrlen_cmd-Keeps, tt)),
                    ),
                  ),
                ),
              ),
            ),
          ),
        )
        all)

sets-AllKeep :
    (draw : Draws) (text : DoubleText) (rolls : ℕ → Rolls) (table : CommandRouter)
    → AllKeep table
    → AllKeep (register_zset_commands text rolls (register_set_commands draw table))
unfolding register_zset_commands register_set_commands
sets-AllKeep draw text rolls table all =
    register_all-AllKeep _ _
      (
        SortedSets.zadd_cmd-Keeps text rolls,
        (
          SortedSets.zrem_cmd-Keeps,
          (
            SortedSets.zscore_cmd-Keeps text,
            (
              SortedSets.zrank_cmd-Keeps,
              (
                SortedSets.zrevrank_cmd-Keeps,
                (
                  SortedSets.zrange_cmd-Keeps text,
                  (SortedSets.zrevrange_cmd-Keeps text, (SortedSets.zcard_cmd-Keeps, tt)),
                ),
              ),
            ),
          ),
        ),
      )
      (register_all-AllKeep _ _
        (
          Sets.sadd_cmd-Keeps,
          (
            Sets.srem_cmd-Keeps,
            (
              Sets.sismember_cmd-Keeps,
              (Sets.smembers_cmd-Keeps, (Sets.scard_cmd-Keeps, (Sets.spop_cmd-Keeps draw, tt))),
            ),
          ),
        )
        all)

pub server_commands-AllKeep :
    (draw : Draws) (text : DoubleText) (rolls : ℕ → Rolls)
    → AllKeep (server_commands draw text rolls)
unfolding server_commands
server_commands-AllKeep draw text rolls =
    sets-AllKeep draw text rolls _ (hashes_lists-AllKeep _ plain-AllKeep)

pub execute-IsWell :
    (table : CommandRouter) (cmd : RespCommand) (now : ℤ) (db : Dict)
    → AllKeep table
    → IsWell db
    → IsWell (execute table cmd now db).1
unfolding execute
execute-IsWell table cmd now db all w = elim (Option-cases (find (normalize cmd.name) table)) [
  | inl e ↦ rw (execute, e) w
  | inr (handler, e) ↦ rw (execute, e) (all (normalize cmd.name) handler e cmd.args now db w)
]
