-- ===== src/Router/Laws.antt =====
-- What the router does with a name.
use redis_like.Base.{◌≡◌, arith, Bytes, same, if◌then◌else◌, ℤ, find-put}
use redis_like.Resp.{RespCommand}
use redis_like.Dict.{Dict}
use redis_like.Command.Context.{Handler}
use redis_like.Router.{CommandRouter, normalize, register, execute}

-- A registered handler gets every command of its name, in any case of the letters, with the
-- arguments of the command; all other commands go where they went before.
execute-register :
    (name : Bytes) (handler : Handler) (table : CommandRouter) (cmd : RespCommand) (now : ℤ)
    (db : Dict)
    → execute (register name handler table) cmd now db ≡ (
        if same (normalize name) (normalize cmd.name)
        then handler cmd.args now db
        else execute table cmd now db)
unfolding execute register
execute-register name handler table cmd now db =
    ground (arith, find-put (normalize name) (normalize cmd.name) handler table)
