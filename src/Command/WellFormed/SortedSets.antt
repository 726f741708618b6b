-- ===== src/Command/WellFormed/SortedSets.antt =====
-- The sorted set commands of src/command/zset_cmd.cpp keep a keyspace well-formed.
use redis_like.Base.{
  ℕ, ◌%◌, ◌≡◌, refl, not, ◌||◌, Option, none, some, List, [], ◌∷◌, Bytes, ltb, ◌==◌, length,
}
use redis_like.Text.{parse_int}
use redis_like.Object.{Value, zset, as_zset, create_zset}
use redis_like.Dict.{Dict}
use redis_like.Command.Context.{get_typed, get_or_create}
use redis_like.Command.WellFormed.{
  IsWellValue, IsWell, Keeps, store-IsWell, store_or_del-IsWell, check_expire-IsWell,
}
use redis_like.Command.WellFormed.Typed.{Opened, get_or_create-Opened}
use redis_like.Command.WellFormed.Typed.{number-IsWell, if-IsWell}
use redis_like.Ds.SkipList
use redis_like.Ds.SkipList.{SkipList, Rolls}
use redis_like.Command.SortedSets.{
  DoubleText, add_scores, add_onto, add_with, zadd_cmd, delete_all, remove_from, zrem_cmd,
  zscore_cmd, zrank_cmd, zrevrank_cmd, zcard_cmd, range_with, zrange_cmd, zrevrange_cmd,
}

-- nothing is asked of a sorted set here
zset-holds : (v : Value) (z : SkipList) → IsWellValue v → as_zset v ≡ some z → Unit {0}
zset-holds v z w e = tt

add_onto-IsWell :
    (text : DoubleText) (rolls : ℕ → Rolls) (key : Bytes) (pairs : List Bytes)
    (r : Option SkipList × Dict)
    → Opened (λ _. Unit {0}) key r
    → IsWell (add_onto text rolls key pairs r).1
unfolding add_onto
add_onto-IsWell text rolls key pairs (none, db) opened = opened.missing refl
add_onto-IsWell text rolls key pairs (some sl, db) opened =
    store-IsWell db key (zset (add_scores text rolls 0 0 pairs sl).1) tt opened.others

pub zadd_cmd-Keeps : (text : DoubleText) (rolls : ℕ → Rolls) → Keeps (zadd_cmd text rolls)
unfolding zadd_cmd add_with
zadd_cmd-Keeps text rolls [] now db w = w
zadd_cmd-Keeps text rolls (key ∷ pairs) now db w =
    if-IsWell (ltb (length (key ∷ pairs)) 3 || not (length (key ∷ pairs) % 2 == 1)) _
      (add_with text rolls key pairs now db) w
      (add_onto-IsWell text rolls key pairs
        (get_or_create as_zset create_zset SkipList.empty db key now)
        (get_or_create-Opened as_zset (λ _. Unit {0}) zset-holds create_zset SkipList.empty db key
          now tt w))

remove_from-IsWell :
    (key : Bytes) (ms : List Bytes) (r : Option SkipList × Dict)
    → IsWell r.1
    → IsWell (remove_from key ms r).1
unfolding remove_from
remove_from-IsWell key ms (none, db) w = w
remove_from-IsWell key ms (some sl, db) w =
    let sl' = (delete_all 0 ms sl).1 in
    store_or_del-IsWell (sl'.size == 0) db key (zset sl') (λ e. tt) w

pub zrem_cmd-Keeps : Keeps zrem_cmd
unfolding zrem_cmd get_typed
zrem_cmd-Keeps [] now db w = w
zrem_cmd-Keeps (key ∷ []) now db w = w
zrem_cmd-Keeps (key ∷ m ∷ ms) now db w =
    remove_from-IsWell key (m ∷ ms) _ (check_expire-IsWell db key now w)

pub zscore_cmd-Keeps : (text : DoubleText) → Keeps (zscore_cmd text)
unfolding zscore_cmd get_typed
zscore_cmd-Keeps text [] now db w = w
zscore_cmd-Keeps text (key ∷ []) now db w = w
zscore_cmd-Keeps text (key ∷ m ∷ _) now db w = check_expire-IsWell db key now w

pub zrank_cmd-Keeps : Keeps zrank_cmd
unfolding zrank_cmd get_typed
zrank_cmd-Keeps [] now db w = w
zrank_cmd-Keeps (key ∷ []) now db w = w
zrank_cmd-Keeps (key ∷ m ∷ _) now db w = check_expire-IsWell db key now w

pub zrevrank_cmd-Keeps : Keeps zrevrank_cmd
unfolding zrevrank_cmd get_typed
zrevrank_cmd-Keeps [] now db w = w
zrevrank_cmd-Keeps (key ∷ []) now db w = w
zrevrank_cmd-Keeps (key ∷ m ∷ _) now db w = check_expire-IsWell db key now w

pub zcard_cmd-Keeps : Keeps zcard_cmd
unfolding zcard_cmd get_typed
zcard_cmd-Keeps [] now db w = w
zcard_cmd-Keeps (key ∷ _) now db w = check_expire-IsWell db key now w

pub zrange_cmd-Keeps : (text : DoubleText) → Keeps (zrange_cmd text)
unfolding zrange_cmd range_with get_typed
zrange_cmd-Keeps text [] now db w = w
zrange_cmd-Keeps text (key ∷ []) now db w = w
zrange_cmd-Keeps text (key ∷ start ∷ []) now db w = w
zrange_cmd-Keeps text (key ∷ start ∷ stop ∷ opts) now db w =
    number-IsWell (parse_int start) _ _ db w
      (λ i. number-IsWell (parse_int stop) _ _ db w (λ j. check_expire-IsWell db key now w))

pub zrevrange_cmd-Keeps : (text : DoubleText) → Keeps (zrevrange_cmd text)
unfolding zrevrange_cmd range_with get_typed
zrevrange_cmd-Keeps text [] now db w = w
zrevrange_cmd-Keeps text (key ∷ []) now db w = w
zrevrange_cmd-Keeps text (key ∷ start ∷ []) now db w = w
zrevrange_cmd-Keeps text (key ∷ start ∷ stop ∷ opts) now db w =
    number-IsWell (parse_int start) _ _ db w
      (λ i. number-IsWell (parse_int stop) _ _ db w (λ j. check_expire-IsWell db key now w))
