-- ===== src/Command/Sets.antt =====
-- src/command/set_cmd.cpp: SADD, SREM, SISMEMBER, SMEMBERS, SCARD and SPOP. A set is a map to the
-- type with one value. What `std::uniform_int_distribution` draws in SPOP is an argument.
pub mod Laws
pub mod Added
pub mod Popped
use redis_like.Base.{
  ℕ, zero, suc, ◌+◌, ◌%◌, Bool, Option, none, some, List, [], ◌∷◌, map, Bytes, codes, if◌then◌else◌,
  ltb, leb_ℤ, ltb_ℤ, is_empty, ℤ, pos, pos_part, length, Map, put, erase, has, keys, get_elem?,
}
use redis_like.Resp.{error, bulk_string, null_bulk_string, array, empty_array}
use redis_like.Text.{parse_int}
use redis_like.Object.{Value, set, as_set, create_set}
use redis_like.Dict
use redis_like.Dict.{Dict}
use redis_like.Command.Context.{wrong_type, integer_ℕ, get_typed, get_or_create}
use redis_like.Command.Hashes.{erase_all}

abbrev pub RedisSet : Type 0
RedisSet = Map (Unit {0})

abbrev get_set : Dict → Bytes → ℤ → Option RedisSet × Dict
get_set = get_typed as_set

abbrev get_or_create_set : Dict → Bytes → ℤ → Option RedisSet × Dict
get_or_create_set = get_or_create as_set create_set []

-- the loop of SADD: `added`, and the set after it
unfoldable pub add_all : ℕ → List Bytes → RedisSet → ℕ × RedisSet
add_all added [] s = (added, s)
add_all added (m ∷ ms) s = add_all (if has m s then added else suc added) ms (put m tt s)

unfoldable pub sadd_cmd : List Bytes → ℤ → Dict → Bytes × Dict
sadd_cmd (key ∷ m ∷ ms) now db =
    let (found, db₁) = get_or_create_set db key now in
    elim found [
      | none ↦ (wrong_type, db₁)
      | some s ↦
          (let (added, s') = add_all 0 (m ∷ ms) s in (integer_ℕ added, Dict.store db₁ key (set s')))
    ]
sadd_cmd _ now db = (error (codes "ERR wrong number of arguments for 'SADD'"), db)

unfoldable pub srem_cmd : List Bytes → ℤ → Dict → Bytes × Dict
srem_cmd (key ∷ m ∷ ms) now db =
    let (found, db₁) = get_set db key now in
    elim found [
      | none ↦ (integer_ℕ 0, db₁)
      | some s ↦
          (let (removed, s') = erase_all 0 (m ∷ ms) s in
            let db₂ = Dict.store db₁ key (set s') in
            (integer_ℕ removed, if is_empty s' then (Dict.del db₂ key).1 else db₂))
    ]
srem_cmd _ now db = (error (codes "ERR wrong number of arguments for 'SREM'"), db)

unfoldable pub sismember_cmd : List Bytes → ℤ → Dict → Bytes × Dict
sismember_cmd (key ∷ m ∷ _) now db =
    let (found, db₁) = get_set db key now in
    (elim found [ none ↦ integer_ℕ 0 | some s ↦ integer_ℕ (if has m s then 1 else 0) ], db₁)
sismember_cmd _ now db = (error (codes "ERR wrong number of arguments for 'SISMEMBER'"), db)

unfoldable pub smembers_cmd : List Bytes → ℤ → Dict → Bytes × Dict
smembers_cmd [] now db = (error (codes "ERR wrong number of arguments for 'SMEMBERS'"), db)
smembers_cmd (key ∷ _) now db =
    let (found, db₁) = get_set db key now in
    (elim found [ none ↦ empty_array | some s ↦ array (map bulk_string (keys s)) ], db₁)

unfoldable pub scard_cmd : List Bytes → ℤ → Dict → Bytes × Dict
scard_cmd [] now db = (error (codes "ERR wrong number of arguments for 'SCARD'"), db)
scard_cmd (key ∷ _) now db =
    let (found, db₁) = get_set db key now in
    (elim found [ none ↦ integer_ℕ 0 | some s ↦ integer_ℕ (length s) ], db₁)

-- The generator: `draw n` is what it would give at its n-th call before the distribution takes it
-- into the range of the members.
abbrev pub Draws : Type 0
Draws = ℕ → ℕ

-- The loop of SPOP: in each round the member at a drawn position is popped.
unfoldable pub pop_members : Draws → ℕ → RedisSet → List Bytes × RedisSet
pop_members draw zero s = ([], s)
pop_members draw (suc n) s = elim (get_elem? (keys s) (draw n % length s)) [
  | none ↦ ([], s)
  | some m ↦ (let (popped, rest) = pop_members draw n (erase m s) in (m ∷ popped, rest))
]

-- SPOP behind its arguments; `missing` is the reply for no set
unfoldable pub spop_with :
    Draws → ℤ → Bytes → (List Bytes → Bytes) → Bytes → ℤ → Dict → Bytes × Dict
spop_with draw count missing reply key now db =
    let (found, db₁) = get_set db key now in
    elim found [
      | none ↦ (missing, db₁)
      | some s ↦
          (let n = if ltb_ℤ (pos (length s)) count then length s else pos_part count in
            let (popped, rest) = pop_members draw n s in
            let db₂ = Dict.store db₁ key (set rest) in
            (reply popped, if is_empty rest then (Dict.del db₂ key).1 else db₂))
    ]

unfoldable pub first_reply : List Bytes → Bytes
first_reply [] = null_bulk_string
first_reply (m ∷ ms) = bulk_string m

unfoldable pub spop_cmd : Draws → List Bytes → ℤ → Dict → Bytes × Dict
spop_cmd draw [] now db = (error (codes "ERR wrong number of arguments for 'SPOP'"), db)
spop_cmd draw (key ∷ []) now db = spop_with draw (pos 1) null_bulk_string first_reply key now db
spop_cmd draw (key ∷ count ∷ _) now db = elim (parse_int count) [
  | none ↦ (error (codes "ERR value is out of range"), db)
  | some n ↦
      if ltb_ℤ n (pos 0)
      then (error (codes "ERR value is out of range"), db)
      else spop_with draw n empty_array (λ popped. array (map bulk_string popped)) key now db
]
