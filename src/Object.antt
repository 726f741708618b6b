-- ===== src/Object.antt =====
-- src/object.h and the enumerations of src/common.h. `type` and `encoding` are not kept beside the
-- value: each factory sets them together with it and nothing sets one alone, so that they are
-- functions of the value. `lru` is never read or written. Times are nanoseconds in `int64_t`.
use redis_like.Base.{Bool, false, Option, none, some, List, [], Bytes, codes, Map, ℤ, leb_ℤ}
use redis_like.Ds.SkipList
use redis_like.Ds.SkipList.{SkipList}

pub data ObjType : Type 0 where
  string_type hash_type list_type set_type zset_type : ObjType

-- `ObjTypeName`
unfoldable pub obj_type_name : ObjType → Bytes
obj_type_name string_type = codes "string"
obj_type_name hash_type = codes "hash"
obj_type_name list_type = codes "list"
obj_type_name set_type = codes "set"
obj_type_name zset_type = codes "zset"

-- `ValueVariant`; an `unordered_set` is a map to the type with one value
pub data Value : Type 0 where
  string : Bytes → Value
  hash : Map Bytes → Value
  list : List Bytes → Value
  set : Map (Unit {0}) → Value
  zset : SkipList → Value

unfoldable pub type_of : Value → ObjType
type_of (string s) = string_type
type_of (hash h) = hash_type
type_of (list l) = list_type
type_of (set s) = set_type
type_of (zset z) = zset_type

pub record RedisObject : Type 0 where
  pub value : Value
  pub expire_at : Option ℤ

unfoldable pub create_string : Bytes → RedisObject
create_string s = record { value = string s; expire_at = none }

unfoldable pub create_hash : RedisObject
create_hash = record { value = hash []; expire_at = none }

unfoldable pub create_list : RedisObject
create_list = record { value = list []; expire_at = none }

unfoldable pub create_set : RedisObject
create_set = record { value = set []; expire_at = none }

unfoldable pub create_zset : RedisObject
unfolding SkipList.empty
create_zset = record { value = zset SkipList.empty; expire_at = none }

-- `As<T>()`, one function for each alternative of the variant
abbrev pub as_string : Value → Option Bytes
as_string (string s) = some s
as_string _ = none

abbrev pub as_hash : Value → Option (Map Bytes)
as_hash (hash h) = some h
as_hash _ = none

abbrev pub as_list : Value → Option (List Bytes)
as_list (list l) = some l
as_list _ = none

abbrev pub as_set : Value → Option (Map (Unit {0}))
as_set (set s) = some s
as_set _ = none

abbrev pub as_zset : Value → Option SkipList
as_zset (zset z) = some z
as_zset _ = none

unfoldable pub is_expired : RedisObject → ℤ → Bool
is_expired obj now = elim obj.expire_at [ none ↦ false | some t ↦ leb_ℤ t now ]
