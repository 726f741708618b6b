-- ===== src/Dict.antt =====
-- src/dict.h: the keyspace.
use redis_like.Base.{ℕ, Bool, Option, none, some, List, Bytes, Map, find, put, erase, has, length}
use redis_like.Base
use redis_like.Object.{Value, RedisObject}

abbrev pub Dict : Type 0
Dict = Map RedisObject

unfoldable pub get : Dict → Bytes → Option RedisObject
get db key = find key db

unfoldable pub set : Dict → Bytes → RedisObject → Dict
set db key obj = put key obj db

-- the result of `Del`, and the dictionary after it
unfoldable pub del : Dict → Bytes → Bool × Dict
del db key = (has key db, erase key db)

unfoldable pub exists : Dict → Bytes → Bool
exists db key = has key db

abbrev pub keys : Dict → List Bytes
keys db = Base.keys db

abbrev pub size : Dict → ℕ
size db = length db

-- A write through the `shared_ptr` that `Get` returned for the key: the object in the dictionary
-- is that object, and no other key holds it.
unfoldable pub store : Dict → Bytes → Value → Dict
unfolding get set
store db key v = elim (get db key) [ none ↦ db | some obj ↦ set db key (record obj { value = v }) ]
