-- ===== src/Expire/View.antt =====
-- What a client can see of the keyspace at a time: the objects that have not expired.
use redis_like.Base.{◌≡◌, Option, none, some, arith, Bytes, ℤ, if◌then◌else◌, same_iff, find-erase}
use redis_like.Object.{RedisObject, is_expired}
use redis_like.Dict
use redis_like.Dict.{Dict}
use redis_like.Expire.{lazy_check}

abbrev pub live : ℤ → Option RedisObject → Option RedisObject
live now none = none
live now (some obj) = if is_expired obj now then none else some obj

unfoldable pub view : Dict → ℤ → Bytes → Option RedisObject
unfolding Dict.get
view db now key = live now (Dict.get db key)

-- the dictionary after `CheckExpire` on a key
abbrev pub checked : Dict → Bytes → ℤ → Dict
checked db key now = (lazy_check db key now).1

pub get-checked :
    (db : Dict) (key : Bytes) (now : ℤ) → Dict.get (checked db key now) key ≡ view db now key
unfolding lazy_check view
get-checked db key now = ground (arith, find-erase key key db, same_iff key key)

pub view-checked :
    (db : Dict) (key j : Bytes) (now : ℤ) → view (checked db key now) now j ≡ view db now j
unfolding lazy_check view
view-checked db key j now = ground (arith, find-erase key j db, same_iff key j)
