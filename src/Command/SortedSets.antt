-- ===== src/Command/SortedSets.antt =====
-- src/command/zset_cmd.cpp: ZADD, ZREM, ZSCORE, ZRANK, ZREVRANK, ZRANGE, ZREVRANGE and ZCARD. How the
-- C++ library reads and writes a `double` as text is a parameter, and what the generators of the skip
-- lists give is an argument.
pub mod Valid
pub mod Kept
use mathlib.Core.List.{reverse}
use redis_like.Base.{
  ℕ, zero, suc, ◌+◌, ◌-◌, ◌%◌, Bool, true, false, not, ◌||◌, Option, none, some, List, [], ◌∷◌,
  Bytes, codes, same, upper, if◌then◌else◌, ltb, ◌==◌, length, ℤ, pos, negsuc, ◌+ℤ◌, ◌-ℤ◌, ltb_ℤ,
  leb_ℤ, find,
}
use redis_like.Ds.SkipList.Queries.{get_score, get_rank, range_by_rank}
use redis_like.Resp.{error, integer, bulk_string, null_bulk_string, array, empty_array}
use redis_like.Text.{parse_int, at_nul}
use redis_like.Ds.SkipList
use redis_like.Ds.SkipList.{SkipList, Rolls}
use redis_like.Object.{Value, zset, as_zset, create_zset}
use redis_like.Dict
use redis_like.Dict.{Dict}
use redis_like.Command.Context.{wrong_type, integer_ℕ, get_typed, get_or_create}

-- `std::strtod`: the pattern of the number and the text from `*end` on, `none` if `end` is left at the
-- start; and what `oss << score` writes.
pub record DoubleText : Type 0 where
  pub strtod : Bytes → Option (ℕ × Bytes)
  pub format : ℕ → Bytes

abbrev get_zset : Dict → Bytes → ℤ → Option SkipList × Dict
get_zset = get_typed as_zset

abbrev get_or_create_zset : Dict → Bytes → ℤ → Option SkipList × Dict
get_or_create_zset = get_or_create as_zset create_zset SkipList.empty

module _ (text : DoubleText) where
  open text use {strtod, format}

  unfoldable pub parse_double : Bytes → Option ℕ
  parse_double s = elim (strtod s) [
    | none ↦ none
    | some (v, rest) ↦ if at_nul rest then some v else none
  ]

  -- The loop of ZADD over scores and members, from its k-th `Insert` on: `added`, or `none` for a
  -- score that is no number, and the skip list as it is then.
  unfoldable pub add_scores : (ℕ → Rolls) → ℕ → ℕ → List Bytes → SkipList → Option ℕ × SkipList
  unfolding parse_double
  add_scores rolls k added [] sl = (some added, sl)
  add_scores rolls k added (s ∷ []) sl = (some added, sl)
  add_scores rolls k added (s ∷ m ∷ rest) sl = elim (parse_double s) [
    | none ↦ (none, sl)
    | some score ↦
        (let sl' = (SkipList.insert (rolls k) score m sl).1 in
          let added' : ℕ = elim (get_score m sl) [ none ↦ suc added | some _ ↦ added ] in
          add_scores rolls (suc k) added' rest sl')
  ]

  -- ZADD behind the look-up of its skip list: what was added before an error stays
  unfoldable pub add_onto : (ℕ → Rolls) → Bytes → List Bytes → Option SkipList × Dict → Bytes × Dict
  add_onto rolls key pairs (none, db) = (wrong_type, db)
  add_onto rolls key pairs (some sl, db) =
      let (added, sl') = add_scores rolls 0 0 pairs sl in
      (
        elim added [ none ↦ error (codes "ERR value is not a valid float") | some n ↦ integer_ℕ n ],
        Dict.store db key (zset sl'),
      )

  -- ZADD behind the count of its arguments
  unfoldable pub add_with : (ℕ → Rolls) → Bytes → List Bytes → ℤ → Dict → Bytes × Dict
  add_with rolls key pairs now db = add_onto rolls key pairs (get_or_create_zset db key now)

  unfoldable pub zadd_cmd : (ℕ → Rolls) → List Bytes → ℤ → Dict → Bytes × Dict
  zadd_cmd rolls [] now db = (error (codes "ERR wrong number of arguments for 'ZADD'"), db)
  zadd_cmd rolls (key ∷ pairs) now db =
      if ltb (length (key ∷ pairs)) 3 || not (length (key ∷ pairs) % 2 == 1)
      then (error (codes "ERR wrong number of arguments for 'ZADD'"), db)
      else add_with rolls key pairs now db

  -- `RespCodec::BulkString(oss.str())`; the score of a member that the list gave is there
  unfoldable pub score_item : SkipList → Bytes → Bytes
  score_item sl member = elim (get_score member sl) [
    | none ↦ null_bulk_string
    | some score ↦ bulk_string (format score)
  ]

  unfoldable pub zscore_cmd : List Bytes → ℤ → Dict → Bytes × Dict
  zscore_cmd (key ∷ member ∷ _) now db =
      let (found, db₁) = get_zset db key now in
      (elim found [ none ↦ null_bulk_string | some sl ↦ score_item sl member ], db₁)
  zscore_cmd _ now db = (error (codes "ERR wrong number of arguments for 'ZSCORE'"), db)

  -- the items of a reply, with scores or without
  unfoldable pub items : Bool → SkipList → List Bytes → List Bytes
  items withscores sl [] = []
  items withscores sl (m ∷ ms) =
      let rest = items withscores sl ms in
      if withscores then bulk_string m ∷ score_item sl m ∷ rest else bulk_string m ∷ rest

-- the loop of ZREM: `removed`, and the skip list after it
unfoldable pub delete_all : ℕ → List Bytes → SkipList → ℕ × SkipList
delete_all removed [] sl = (removed, sl)
delete_all removed (m ∷ ms) sl =
    let (deleted, sl') = SkipList.delete m sl in
    delete_all (if deleted then suc removed else removed) ms sl'

-- ZREM behind the look-up of its skip list
unfoldable pub remove_from : Bytes → List Bytes → Option SkipList × Dict → Bytes × Dict
remove_from key ms (none, db) = (integer_ℕ 0, db)
remove_from key ms (some sl, db) =
    let (removed, sl') = delete_all 0 ms sl in
    let db' = Dict.store db key (zset sl') in
    (integer_ℕ removed, if sl'.size == 0 then (Dict.del db' key).1 else db')

unfoldable pub zrem_cmd : List Bytes → ℤ → Dict → Bytes × Dict
zrem_cmd (key ∷ m ∷ ms) now db = remove_from key (m ∷ ms) (get_zset db key now)
zrem_cmd _ now db = (error (codes "ERR wrong number of arguments for 'ZREM'"), db)

-- the reply for a rank
unfoldable pub rank_reply : (ℕ → ℤ) → Option ℕ → Bytes
rank_reply shown none = null_bulk_string
rank_reply shown (some rank) = integer (shown rank)

unfoldable pub zrank_cmd : List Bytes → ℤ → Dict → Bytes × Dict
zrank_cmd (key ∷ member ∷ _) now db =
    let (found, db₁) = get_zset db key now in
    (elim found [ none ↦ null_bulk_string | some sl ↦ rank_reply pos (get_rank member sl) ], db₁)
zrank_cmd _ now db = (error (codes "ERR wrong number of arguments for 'ZRANK'"), db)

-- `size - 1 - rank`
unfoldable pub rev_rank : ℕ → ℕ → ℤ
rev_rank size rank = pos size -ℤ pos 1 -ℤ pos rank

unfoldable pub zrevrank_cmd : List Bytes → ℤ → Dict → Bytes × Dict
zrevrank_cmd (key ∷ member ∷ _) now db =
    let (found, db₁) = get_zset db key now in
    (
      elim found [
        | none ↦ null_bulk_string
        | some sl ↦ rank_reply (rev_rank sl.size) (get_rank member sl)
      ],
      db₁,
    )
zrevrank_cmd _ now db = (error (codes "ERR wrong number of arguments for 'ZREVRANK'"), db)

unfoldable pub zcard_cmd : List Bytes → ℤ → Dict → Bytes × Dict
zcard_cmd [] now db = (error (codes "ERR wrong number of arguments for 'ZCARD'"), db)
zcard_cmd (key ∷ _) now db =
    let (found, db₁) = get_zset db key now in
    (elim found [ none ↦ integer_ℕ 0 | some sl ↦ integer_ℕ sl.size ], db₁)

-- the option behind the indices
unfoldable pub withscores : List Bytes → Bool
withscores [] = false
withscores (opt ∷ _) = same (upper opt) (codes "WITHSCORES")

-- the members of ZREVRANGE, from high to low
unfoldable pub rev_range : ℤ → ℤ → SkipList → List Bytes
rev_range start stop sl =
    let sz = pos sl.size in
    let from_end = λ (i : ℤ). (if ltb_ℤ i (pos 0) then i +ℤ sz else i) in
    let first = if ltb_ℤ (from_end start) (pos 0) then pos 0 else from_end start in
    let last = if leb_ℤ sz (from_end stop) then sz -ℤ pos 1 else from_end stop in
    if sl.size == 0 || ltb_ℤ last first
    then []
    else reverse (range_by_rank (sz -ℤ pos 1 -ℤ last) (sz -ℤ pos 1 -ℤ first) sl)

abbrev not_integer : Bytes
not_integer = codes "ERR value is not an integer"

-- ZRANGE and ZREVRANGE behind their numbers
unfoldable pub range_with :
    DoubleText → (SkipList → List Bytes) → Bool → Bytes → ℤ → Dict → Bytes × Dict
range_with text listed scores key now db =
    let (found, db₁) = get_zset db key now in
    (elim found [ none ↦ empty_array | some sl ↦ array (items text scores sl (listed sl)) ], db₁)

unfoldable pub zrange_cmd : DoubleText → List Bytes → ℤ → Dict → Bytes × Dict
zrange_cmd text (key ∷ start ∷ stop ∷ opts) now db = elim (parse_int start) [
  | none ↦ (error not_integer, db)
  | some i ↦ elim (parse_int stop) [
    | none ↦ (error not_integer, db)
    | some j ↦ range_with text (range_by_rank i j) (withscores opts) key now db
  ]
]
zrange_cmd text _ now db = (error (codes "ERR wrong number of arguments for 'ZRANGE'"), db)

unfoldable pub zrevrange_cmd : DoubleText → List Bytes → ℤ → Dict → Bytes × Dict
zrevrange_cmd text (key ∷ start ∷ stop ∷ opts) now db = elim (parse_int start) [
  | none ↦ (error not_integer, db)
  | some i ↦ elim (parse_int stop) [
    | none ↦ (error not_integer, db)
    | some j ↦ range_with text (rev_range i j) (withscores opts) key now db
  ]
]
zrevrange_cmd text _ now db = (error (codes "ERR wrong number of arguments for 'ZREVRANGE'"), db)
