-- ===== src/Command/Hashes.antt =====
-- src/command/hash_cmd.cpp: HSET, HGET, HDEL, HEXISTS, HKEYS, HVALS, HGETALL, HLEN and HSTRLEN.
pub mod Laws
pub mod Erased
use redis_like.Base.{
  ℕ, suc, ◌%◌, not, ◌||◌, Option, none, some, List, [], ◌∷◌, map, Bytes, codes, if◌then◌else◌, ltb,
  ◌==◌, is_empty, ℤ, length, Map, find, put, erase, has,
}
use redis_like.Resp.{error, bulk_string, null_bulk_string, array, empty_array}
use redis_like.Object.{Value, hash, as_hash, create_hash}
use redis_like.Dict
use redis_like.Dict.{Dict}
use redis_like.Command.Context.{wrong_type, integer_ℕ, get_typed, get_or_create}

abbrev get_hash : Dict → Bytes → ℤ → Option (Map Bytes) × Dict
get_hash = get_typed as_hash

abbrev get_or_create_hash : Dict → Bytes → ℤ → Option (Map Bytes) × Dict
get_or_create_hash = get_or_create as_hash create_hash []

-- The loop of HSET over its fields and values: `added`, and the hash after it. HSET has refused an
-- odd number of arguments behind the key, so no field is left without a value.
unfoldable pub set_fields : ℕ → List Bytes → Map Bytes → ℕ × Map Bytes
set_fields added [] h = (added, h)
set_fields added (field ∷ []) h = (added, h)
set_fields added (field ∷ val ∷ rest) h =
    set_fields (if has field h then added else suc added) rest (put field val h)

-- HSET behind the count of its arguments
unfoldable pub set_with : Bytes → List Bytes → ℤ → Dict → Bytes × Dict
set_with key pairs now db =
    let (found, db₁) = get_or_create_hash db key now in
    elim found [
      | none ↦ (wrong_type, db₁)
      | some h ↦
          (let (added, h') = set_fields 0 pairs h in
            (integer_ℕ added, Dict.store db₁ key (hash h')))
    ]

unfoldable pub hset_cmd : List Bytes → ℤ → Dict → Bytes × Dict
hset_cmd [] now db = (error (codes "ERR wrong number of arguments for 'HSET'"), db)
hset_cmd (key ∷ pairs) now db =
    if ltb (length (key ∷ pairs)) 3 || not (length (key ∷ pairs) % 2 == 1)
    then (error (codes "ERR wrong number of arguments for 'HSET'"), db)
    else set_with key pairs now db

unfoldable pub hget_cmd : List Bytes → ℤ → Dict → Bytes × Dict
hget_cmd (key ∷ field ∷ _) now db =
    let (found, db₁) = get_hash db key now in
    (
      elim found [
        | none ↦ null_bulk_string
        | some h ↦ elim (find field h) [ none ↦ null_bulk_string | some v ↦ bulk_string v ]
      ],
      db₁,
    )
hget_cmd _ now db = (error (codes "ERR wrong number of arguments for 'HGET'"), db)

-- the loop of HDEL and SREM, with the count of what was there
unfoldable pub erase_all {ℓ} : {V : Type ℓ} → ℕ → List Bytes → Map V → ℕ × Map V
erase_all count [] h = (count, h)
erase_all count (field ∷ fields) h =
    erase_all (if has field h then suc count else count) fields (erase field h)

unfoldable pub hdel_cmd : List Bytes → ℤ → Dict → Bytes × Dict
hdel_cmd (key ∷ field ∷ fields) now db =
    let (found, db₁) = get_hash db key now in
    elim found [
      | none ↦ (integer_ℕ 0, db₁)
      | some h ↦
          (let (count, h') = erase_all 0 (field ∷ fields) h in
            let db₂ = Dict.store db₁ key (hash h') in
            (integer_ℕ count, if is_empty h' then (Dict.del db₂ key).1 else db₂))
    ]
hdel_cmd _ now db = (error (codes "ERR wrong number of arguments for 'HDEL'"), db)

unfoldable pub hexists_cmd : List Bytes → ℤ → Dict → Bytes × Dict
hexists_cmd (key ∷ field ∷ _) now db =
    let (found, db₁) = get_hash db key now in
    (elim found [ none ↦ integer_ℕ 0 | some h ↦ integer_ℕ (if has field h then 1 else 0) ], db₁)
hexists_cmd _ now db = (error (codes "ERR wrong number of arguments for 'HEXISTS'"), db)

-- HKEYS, HVALS and HGETALL behind their arguments: what they reply for each entry
unfoldable pub entries_with : (Map Bytes → List Bytes) → Bytes → ℤ → Dict → Bytes × Dict
entries_with items key now db =
    let (found, db₁) = get_hash db key now in
    (elim found [ none ↦ empty_array | some h ↦ array (map bulk_string (items h)) ], db₁)

unfoldable pub fields : Map Bytes → List Bytes
fields [] = []
fields ((f, v) ∷ h) = f ∷ fields h

unfoldable pub values : Map Bytes → List Bytes
values [] = []
values ((f, v) ∷ h) = v ∷ values h

unfoldable pub fields_and_values : Map Bytes → List Bytes
fields_and_values [] = []
fields_and_values ((f, v) ∷ h) = f ∷ v ∷ fields_and_values h

unfoldable pub hkeys_cmd : List Bytes → ℤ → Dict → Bytes × Dict
hkeys_cmd [] now db = (error (codes "ERR wrong number of arguments for 'HKEYS'"), db)
hkeys_cmd (key ∷ _) now db = entries_with fields key now db

unfoldable pub hvals_cmd : List Bytes → ℤ → Dict → Bytes × Dict
hvals_cmd [] now db = (error (codes "ERR wrong number of arguments for 'HVALS'"), db)
hvals_cmd (key ∷ _) now db = entries_with values key now db

unfoldable pub hgetall_cmd : List Bytes → ℤ → Dict → Bytes × Dict
hgetall_cmd [] now db = (error (codes "ERR wrong number of arguments for 'HGETALL'"), db)
hgetall_cmd (key ∷ _) now db = entries_with fields_and_values key now db

unfoldable pub hlen_cmd : List Bytes → ℤ → Dict → Bytes × Dict
hlen_cmd [] now db = (error (codes "ERR wrong number of arguments for 'HLEN'"), db)
hlen_cmd (key ∷ _) now db =
    let (found, db₁) = get_hash db key now in
    (elim found [ none ↦ integer_ℕ 0 | some h ↦ integer_ℕ (length h) ], db₁)

unfoldable pub hstrlen_cmd : List Bytes → ℤ → Dict → Bytes × Dict
hstrlen_cmd (key ∷ field ∷ _) now db =
    let (found, db₁) = get_hash db key now in
    (
      elim found [
        | none ↦ integer_ℕ 0
        | some h ↦ elim (find field h) [ none ↦ integer_ℕ 0 | some v ↦ integer_ℕ (length v) ]
      ],
      db₁,
    )
hstrlen_cmd _ now db = (error (codes "ERR wrong number of arguments for 'HSTRLEN'"), db)
