-- ===== src/Command/Lists.antt =====
-- src/command/list_cmd.cpp: LPUSH, RPUSH, LPOP, RPOP, LLEN, LRANGE and LINDEX. The `deque` of a key
-- is a list with its front at the head.
pub mod Laws
pub mod Ranges
use mathlib.Core.List.{reverse}
use redis_like.Base.{
  ℕ, zero, suc, ◌+◌, Bool, true, false, ◌||◌, Option, none, some, List, [], ◌∷◌, ◌++◌, map, Bytes,
  codes, if◌then◌else◌, ℤ, pos, pos_part, ◌+ℤ◌, ltb_ℤ, leb_ℤ, ltb, ◌==◌, length, get_elem?,
  is_empty,
}
use redis_like.Resp.{error, integer, bulk_string, null_bulk_string, array, empty_array}
use redis_like.Text.{parse_int}
use redis_like.Ds.LinkedList.{rpush, range}
use redis_like.Object.{Value, list, as_list, create_list}
use redis_like.Dict
use redis_like.Dict.{Dict}
use redis_like.Command.Context.{wrong_type, integer_ℕ, get_typed, get_or_create}

abbrev get_list : Dict → Bytes → ℤ → Option (List Bytes) × Dict
get_list = get_typed as_list

abbrev get_or_create_list : Dict → Bytes → ℤ → Option (List Bytes) × Dict
get_or_create_list = get_or_create as_list create_list []

-- `push_front` of each value in turn
unfoldable pub push_front_all : List Bytes → List Bytes → List Bytes
push_front_all [] l = l
push_front_all (v ∷ vs) l = push_front_all vs (v ∷ l)

-- `push_back` of each value in turn
unfoldable pub push_back_all : List Bytes → List Bytes → List Bytes
push_back_all [] l = l
push_back_all (v ∷ vs) l = push_back_all vs (l ++ v ∷ [])

-- LPUSH and RPUSH behind the count of their arguments, with what is done to the deque
unfoldable pub push_with : (List Bytes → List Bytes) → Bytes → ℤ → Dict → Bytes × Dict
push_with push key now db =
    let (found, db₁) = get_or_create_list db key now in
    elim found [
      | none ↦ (wrong_type, db₁)
      | some l ↦ (integer_ℕ (length (push l)), Dict.store db₁ key (list (push l)))
    ]

unfoldable pub lpush_cmd : List Bytes → ℤ → Dict → Bytes × Dict
lpush_cmd (key ∷ v ∷ vs) now db = push_with (push_front_all (v ∷ vs)) key now db
lpush_cmd _ now db = (error (codes "ERR wrong number of arguments for 'LPUSH'"), db)

unfoldable pub rpush_cmd : List Bytes → ℤ → Dict → Bytes × Dict
rpush_cmd (key ∷ v ∷ vs) now db = push_with (push_back_all (v ∷ vs)) key now db
rpush_cmd _ now db = (error (codes "ERR wrong number of arguments for 'RPUSH'"), db)

-- `count` rounds of `front` and `pop_front`: the items that are popped, and what is left
unfoldable pub pop_front : ℕ → List Bytes → List Bytes × List Bytes
pop_front zero l = ([], l)
pop_front (suc n) [] = ([], [])
pop_front (suc n) (v ∷ l) = let (popped, rest) = pop_front n l in (v ∷ popped, rest)

-- `back` and `pop_back` are the front of the reversed list
unfoldable pub pop_back : ℕ → List Bytes → List Bytes × List Bytes
pop_back n l = let (popped, rest) = pop_front n (reverse l) in (popped, reverse rest)

-- the reply for one item, if no count was given
unfoldable pub first_reply : List Bytes → Bytes
first_reply [] = null_bulk_string
first_reply (v ∷ vs) = bulk_string v

abbrev Pop : Type 0
Pop = ℕ → List Bytes → List Bytes × List Bytes

-- LPOP and RPOP behind their arguments: an emptied list goes with its key
unfoldable pub pop_with : Pop → ℕ → (List Bytes → Bytes) → Bytes → ℤ → Dict → Bytes × Dict
pop_with pop count reply key now db =
    let (found, db₁) = get_list db key now in
    elim found [
      | none ↦ (null_bulk_string, db₁)
      | some l ↦
          (let (popped, rest) = pop count l in
            let db₂ = Dict.store db₁ key (list rest) in
            (reply popped, if is_empty rest then (Dict.del db₂ key).1 else db₂))
    ]

abbrev out_of_range : Bytes
out_of_range = codes "ERR value is out of range"

unfoldable pub array_reply : List Bytes → Bytes
array_reply items = array (map bulk_string items)

-- the arguments of LPOP and RPOP; `arity` is the message of no argument
unfoldable pub pop_cmd : Pop → Bytes → List Bytes → ℤ → Dict → Bytes × Dict
pop_cmd pop arity [] now db = (error arity, db)
pop_cmd pop arity (key ∷ []) now db = pop_with pop 1 first_reply key now db
pop_cmd pop arity (key ∷ count ∷ _) now db = elim (parse_int count) [
  | none ↦ (error out_of_range, db)
  | some n ↦
      if ltb_ℤ n (pos 0)
      then (error out_of_range, db)
      else pop_with pop (pos_part n) array_reply key now db
]

unfoldable pub lpop_cmd : List Bytes → ℤ → Dict → Bytes × Dict
lpop_cmd = pop_cmd pop_front (codes "ERR wrong number of arguments for 'LPOP'")

unfoldable pub rpop_cmd : List Bytes → ℤ → Dict → Bytes × Dict
rpop_cmd = pop_cmd pop_back (codes "ERR wrong number of arguments for 'RPOP'")

unfoldable pub llen_cmd : List Bytes → ℤ → Dict → Bytes × Dict
llen_cmd [] now db = (error (codes "ERR wrong number of arguments for 'LLEN'"), db)
llen_cmd (key ∷ _) now db =
    let (found, db₁) = get_list db key now in
    (elim found [ none ↦ integer_ℕ 0 | some l ↦ integer_ℕ (length l) ], db₁)

abbrev not_integer : Bytes
not_integer = codes "ERR value is not an integer"

-- the copy of the deque that LRANGE makes, with `RPush`
unfoldable pub copy_all : List Bytes → List Bytes → List Bytes
unfolding rpush
copy_all helper [] = helper
copy_all helper (v ∷ vs) = copy_all (rpush v helper) vs

-- LRANGE behind its numbers
unfoldable pub range_with : ℤ → ℤ → Bytes → ℤ → Dict → Bytes × Dict
range_with start stop key now db =
    let (found, db₁) = get_list db key now in
    (
      elim found [ none ↦ empty_array | some l ↦ array_reply (range start stop (copy_all [] l)) ],
      db₁,
    )

unfoldable pub lrange_cmd : List Bytes → ℤ → Dict → Bytes × Dict
lrange_cmd (key ∷ start ∷ stop ∷ _) now db = elim (parse_int start) [
  | none ↦ (error not_integer, db)
  | some i ↦ elim (parse_int stop) [
    | none ↦ (error not_integer, db)
    | some j ↦ range_with i j key now db
  ]
]
lrange_cmd _ now db = (error (codes "ERR wrong number of arguments for 'LRANGE'"), db)

-- the item at an index that counts from the end if it is negative
unfoldable pub index : ℤ → List Bytes → Option Bytes
index idx l =
    let sz = pos (length l) in
    let i = if ltb_ℤ idx (pos 0) then idx +ℤ sz else idx in
    if ltb_ℤ i (pos 0) || leb_ℤ sz i then none else get_elem? l (pos_part i)

unfoldable pub lindex_cmd : List Bytes → ℤ → Dict → Bytes × Dict
lindex_cmd (key ∷ idx ∷ _) now db = elim (parse_int idx) [
  | none ↦ (error not_integer, db)
  | some i ↦
      (let (found, db₁) = get_list db key now in
        (
          elim found [
            | none ↦ null_bulk_string
            | some l ↦ elim (index i l) [ none ↦ null_bulk_string | some v ↦ bulk_string v ]
          ],
          db₁,
        ))
]
lindex_cmd _ now db = (error (codes "ERR wrong number of arguments for 'LINDEX'"), db)
