-- ===== src/Command/Keys.antt =====
-- The key commands of src/command/string_cmd.cpp: DEL, EXISTS, EXPIRE, PEXPIRE, TTL, PTTL, TYPE
-- and KEYS.
pub mod Glob
pub mod Laws
pub mod Found
use redis_like.Base.{
  ℕ, suc, ◌+◌, Bool, true, false, Option, none, some, List, [], ◌∷◌, map, Bytes, codes,
  if◌then◌else◌, ℤ, pos, negsuc, ltb_ℤ,
}
use redis_like.Resp.{error, integer, simple_string, bulk_string, array}
use redis_like.Text.{parse_int}
use redis_like.Object.{RedisObject, type_of, obj_type_name, is_expired}
use redis_like.Dict
use redis_like.Dict.{Dict}
use redis_like.Expire.{after_ms, after_seconds, set_expire, remove_expire, remaining, get_ttl}
use redis_like.Command.Context.{check_expire, integer_ℕ}
use redis_like.Command.Keys.Glob.{match_glob}

-- the loop of DEL, with `count`
unfoldable pub del_keys : ℕ → List Bytes → Dict → ℕ × Dict
del_keys count [] db = (count, db)
del_keys count (key ∷ keys) db =
    let (deleted, db₁) = Dict.del db key in del_keys (if deleted then suc count else count) keys db₁

unfoldable pub del_cmd : List Bytes → ℤ → Dict → Bytes × Dict
del_cmd [] now db = (error (codes "ERR wrong number of arguments for 'DEL' command"), db)
del_cmd (key ∷ keys) now db =
    let (count, db₁) = del_keys 0 (key ∷ keys) db in (integer_ℕ count, db₁)

-- the loop of EXISTS, with `count`
unfoldable pub exists_keys : ℕ → List Bytes → ℤ → Dict → ℕ × Dict
exists_keys count [] now db = (count, db)
exists_keys count (key ∷ keys) now db =
    let db₁ = check_expire db key now in
    exists_keys (if Dict.exists db₁ key then suc count else count) keys now db₁

unfoldable pub exists_cmd : List Bytes → ℤ → Dict → Bytes × Dict
exists_cmd [] now db = (error (codes "ERR wrong number of arguments for 'EXISTS' command"), db)
exists_cmd (key ∷ keys) now db =
    let (count, db₁) = exists_keys 0 (key ∷ keys) now db in (integer_ℕ count, db₁)

abbrev not_integer : Bytes
not_integer = codes "ERR value is not an integer"

-- EXPIRE and PEXPIRE behind their numbers. `until` is the time that a positive number sets; any
-- other number clears the time of the object and deletes the key.
unfoldable pub expire_with : Bytes → ℤ → ℤ → ℤ → Dict → Bytes × Dict
expire_with key n until now db =
    let db₁ = check_expire db key now in
    elim (Dict.get db₁ key) [
      | none ↦ (integer (pos 0), db₁)
      | some obj ↦ (
        integer (pos 1),
        if ltb_ℤ (pos 0) n
            then Dict.set db₁ key (set_expire obj until)
            else (Dict.del (Dict.set db₁ key (remove_expire obj)) key).1,
      )
    ]

unfoldable pub expire_cmd : List Bytes → ℤ → Dict → Bytes × Dict
expire_cmd (key ∷ secs ∷ _) now db = elim (parse_int secs) [
  | none ↦ (error not_integer, db)
  | some n ↦ expire_with key n (after_seconds now n) now db
]
expire_cmd _ now db = (error (codes "ERR wrong number of arguments for 'EXPIRE' command"), db)

unfoldable pub pexpire_cmd : List Bytes → ℤ → Dict → Bytes × Dict
pexpire_cmd (key ∷ ms ∷ _) now db = elim (parse_int ms) [
  | none ↦ (error not_integer, db)
  | some n ↦ expire_with key n (after_ms now n) now db
]
pexpire_cmd _ now db = (error (codes "ERR wrong number of arguments for 'PEXPIRE' command"), db)

unfoldable pub ttl_cmd : List Bytes → ℤ → Dict → Bytes × Dict
ttl_cmd [] now db = (error (codes "ERR wrong number of arguments for 'TTL' command"), db)
ttl_cmd (key ∷ _) now db =
    let db₁ = check_expire db key now in (integer (get_ttl (Dict.get db₁ key) now), db₁)

-- PTTL computes what `GetTTL` does, in milliseconds
unfoldable pub get_pttl : Option RedisObject → ℤ → ℤ
get_pttl none now = negsuc 1
get_pttl (some obj) now = elim obj.expire_at [
  | none ↦ negsuc 0
  | some t ↦ remaining 1_000_000 t now
]

unfoldable pub pttl_cmd : List Bytes → ℤ → Dict → Bytes × Dict
pttl_cmd [] now db = (error (codes "ERR wrong number of arguments for 'PTTL' command"), db)
pttl_cmd (key ∷ _) now db =
    let db₁ = check_expire db key now in (integer (get_pttl (Dict.get db₁ key) now), db₁)

unfoldable pub type_cmd : List Bytes → ℤ → Dict → Bytes × Dict
type_cmd [] now db = (error (codes "ERR wrong number of arguments for 'TYPE' command"), db)
type_cmd (key ∷ _) now db =
    let db₁ = check_expire db key now in
    (
      elim (Dict.get db₁ key) [
        | none ↦ simple_string (codes "none")
        | some obj ↦ simple_string (obj_type_name (type_of obj.value))
      ],
      db₁,
    )

-- the loop of KEYS over the copied keys: the matches, and the dictionary without what had expired
unfoldable pub matching : Bytes → List Bytes → ℤ → Dict → List Bytes × Dict
matching pattern [] now db = ([], db)
matching pattern (key ∷ keys) now db = elim (Dict.get db key) [
  | none ↦ matching pattern keys now db
  | some obj ↦ elim (is_expired obj now) [
    | true ↦ matching pattern keys now (Dict.del db key).1
    | false ↦
        (let (found, db₁) = matching pattern keys now db in
          (if match_glob key pattern then key ∷ found else found, db₁))
  ]
]

unfoldable pub keys_cmd : List Bytes → ℤ → Dict → Bytes × Dict
keys_cmd [] now db = (error (codes "ERR wrong number of arguments for 'KEYS' command"), db)
keys_cmd (pattern ∷ _) now db =
    let (found, db₁) = matching pattern (Dict.keys db) now db in
    (array (map bulk_string found), db₁)
