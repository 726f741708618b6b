-- ===== src/Command/Strings.antt =====
-- SET and GET of src/command/string_cmd.cpp.
pub mod Parse
pub mod Laws
use redis_like.Base.{
  ℕ, ◌≡◌, refl, Bool, true, false, not, ◌&&◌, ◌||◌, Option, none, some, List, [], ◌∷◌, Bytes, codes,
  same, upper, ltb, if◌then◌else◌, ℤ, pos, leb_ℤ, length,
}
use redis_like.Resp.{error, null_bulk_string, bulk_string, ok_reply}
use redis_like.Object.{RedisObject, string, as_string, create_string}
use redis_like.Dict
use redis_like.Dict.{Dict}
use redis_like.Expire.{after_ms, set_expire}
use redis_like.Command.Context.{check_expire}
use redis_like.Command.Strings.Parse.{Options, no_options, parse_options, ok, err, without_expiry}

abbrev set_arity : Bytes
set_arity = codes "ERR wrong number of arguments for 'SET' command"

-- the object that SET stores
unfoldable pub new_string : Bytes → Options → ℤ → RedisObject
new_string val o now = elim o.expiry_mode [
  | without_expiry ↦ create_string val
  | _ ↦ set_expire (create_string val) (after_ms now o.expiry_ms)
]

-- SET behind its options
unfoldable pub set_with : Bytes → Bytes → Options → ℤ → Dict → Bytes × Dict
set_with key val o now db =
    let db₁ = check_expire db key now in
    let exists = Dict.exists db₁ key in
    if o.nx && o.xx
    then (error (codes "ERR NX and XX options are mutually exclusive"), db)
    else if o.nx && exists
    then (null_bulk_string, db₁)
    else if o.xx && not exists
    then (null_bulk_string, db₁)
    else (ok_reply, Dict.set db₁ key (new_string val o now))

unfoldable pub set_cmd : List Bytes → ℤ → Dict → Bytes × Dict
set_cmd [] now db = (error set_arity, db)
set_cmd (key ∷ []) now db = (error set_arity, db)
set_cmd (key ∷ val ∷ opts) now db = elim (parse_options opts no_options) [
  | err msg ↦ (error msg, db)
  | ok o ↦ set_with key val o now db
]

unfoldable pub get_reply : Option RedisObject → Bytes
get_reply none = null_bulk_string
get_reply (some obj) = elim (as_string obj.value) [
  | none ↦ null_bulk_string
  | some s ↦ bulk_string s
]

unfoldable pub get_cmd : List Bytes → ℤ → Dict → Bytes × Dict
get_cmd [] now db = (error (codes "ERR wrong number of arguments for 'GET' command"), db)
get_cmd (key ∷ _) now db = let db₁ = check_expire db key now in (get_reply (Dict.get db₁ key), db₁)
