-- ===== src/Tests/Aggregates.antt =====
-- Instances of the theorems on lists, hashes and sets.
use mathlib.Core.List.{reverse}
use redis_like.Base.{
  ◌≡◌, refl, List, [], ◌∷◌, ◌++◌, Option, some, none, Bytes, codes, same, if◌then◌else◌, pos,
  negsuc, find, has, IsDistinct, take, drop, Map,
}
use redis_like.Text.{parse_int}
use redis_like.Object.{RedisObject, Value, list, hash, set, is_expired}
use redis_like.Dict.{Dict}
use redis_like.Expire.View.{view}
use redis_like.Command.Lists.Ranges.{lrange_reply, range_with_lem}
use redis_like.Command.Lists.{rpush_cmd, lpush_cmd, lpop_cmd, rpop_cmd, array_reply, range_with}
use redis_like.Command.Lists.Laws.{
  after_push, push_reply, after_pop, pop_reply, rpush_lpush_lem, lpop_rpop_lem,
}
use redis_like.Command.Hashes.{hset_cmd, hget_cmd, hdel_cmd}
use redis_like.Command.Hashes.Laws.{last_given, hash_of, value_reply, hget-hset_cmd}
use redis_like.Command.Sets.{RedisSet, Draws, sadd_cmd, spop_cmd}
use redis_like.Command.Sets.Laws.{set_of}
use redis_like.Command.Sets.Added.{added_reply, IsAfterSadd, sadd_cmd_lem}
use redis_like.Command.Sets.Popped.{IsAfterSpop, missing_reply, popped_reply, spop_cmd_lem}
use redis_like.Command.Hashes.Erased.{held_of, IsAfterHdel, hdel_cmd_lem}
use redis_like.Command.Context.{integer_ℕ}

abbrev lasting : Value → RedisObject
lasting v = record { value = v; expire_at = none }

abbrev letters : List Bytes
letters = codes "a" ∷ codes "b" ∷ codes "c" ∷ []

abbrev fields : Map Bytes
fields = (codes "x", codes "1") ∷ (codes "y", codes "2") ∷ []

abbrev members : RedisSet
members = (codes "a", tt) ∷ (codes "b", tt) ∷ (codes "c", tt) ∷ []

abbrev db : Dict
db =
    (codes "l", lasting (list letters))
    ∷ (codes "h", lasting (hash fields))
    ∷ (codes "s", lasting (set members))
    ∷ []

range_with_lem_example :
    ((range_with (negsuc 1) (pos 9) (codes "l") (pos 5) db).0
      ≡ lrange_reply (negsuc 1) (pos 9) (view db (pos 5) (codes "l")))
    × (view (range_with (negsuc 1) (pos 9) (codes "l") (pos 5) db).1 (pos 5) (codes "h")
        ≡ view db (pos 5) (codes "h"))
range_with_lem_example = range_with_lem (negsuc 1) (pos 9) (codes "l") (codes "h") (pos 5) db

rpush_lpush_lem_example :
    ((rpush_cmd (codes "l" ∷ codes "d" ∷ codes "e" ∷ []) (pos 5) db).0
      ≡ push_reply (λ l. l ++ codes "d" ∷ codes "e" ∷ []) (view db (pos 5) (codes "l")))
    × (view (rpush_cmd (codes "l" ∷ codes "d" ∷ codes "e" ∷ []) (pos 5) db).1 (pos 5) (codes "l")
        ≡ (if same (codes "l") (codes "l")
            then after_push (λ l. l ++ codes "d" ∷ codes "e" ∷ []) (view db (pos 5) (codes "l"))
            else view db (pos 5) (codes "l")))
    × ((lpush_cmd (codes "l" ∷ codes "d" ∷ codes "e" ∷ []) (pos 5) db).0
        ≡ push_reply (λ l. reverse (codes "d" ∷ codes "e" ∷ []) ++ l) (view db (pos 5) (codes "l")))
    × (view (lpush_cmd (codes "l" ∷ codes "d" ∷ codes "e" ∷ []) (pos 5) db).1 (pos 5) (codes "l")
        ≡ (if same (codes "l") (codes "l")
            then after_push
                (λ l. reverse (codes "d" ∷ codes "e" ∷ []) ++ l)
                (view db (pos 5) (codes "l"))
            else view db (pos 5) (codes "l")))
rpush_lpush_lem_example =
    rpush_lpush_lem (codes "l") (codes "d") (codes "e" ∷ []) (codes "l") (pos 5) db

two_parsed : parse_int (codes "2") ≡ some (pos 2)
unfolding parse_int
two_parsed = refl

lpop_rpop_lem_example :
    ((lpop_cmd (codes "l" ∷ codes "2" ∷ []) (pos 5) db).0
      ≡ pop_reply (λ l. (take 2 l, drop 2 l)) array_reply (view db (pos 5) (codes "l")))
    × (view (lpop_cmd (codes "l" ∷ codes "2" ∷ []) (pos 5) db).1 (pos 5) (codes "l") ≡ (
        if same (codes "l") (codes "l")
        then after_pop (λ l. (take 2 l, drop 2 l)) (view db (pos 5) (codes "l"))
        else view db (pos 5) (codes "l")))
    × ((rpop_cmd (codes "l" ∷ codes "2" ∷ []) (pos 5) db).0
        ≡ pop_reply
            (λ l. (take 2 (reverse l), reverse (drop 2 (reverse l))))
            array_reply
            (view db (pos 5) (codes "l")))
    × (view (rpop_cmd (codes "l" ∷ codes "2" ∷ []) (pos 5) db).1 (pos 5) (codes "l") ≡ (
        if same (codes "l") (codes "l")
        then after_pop
            (λ l. (take 2 (reverse l), reverse (drop 2 (reverse l))))
            (view db (pos 5) (codes "l"))
        else view db (pos 5) (codes "l")))
lpop_rpop_lem_example = lpop_rpop_lem (codes "l") (codes "2") (codes "l") 2 (pos 5) db two_parsed

fields_seen : hash_of (view db (pos 5) (codes "h")) ≡ some fields
unfolding view is_expired find same
fields_seen = refl

hget-hset_cmd_example :
    (hget_cmd
      (codes "h" ∷ codes "y" ∷ [])
      (pos 5)
      (hset_cmd (codes "h" ∷ codes "y" ∷ codes "3" ∷ codes "z" ∷ codes "4" ∷ []) (pos 5) db).1).0
    ≡ value_reply (
        last_given
          (codes "y")
          (codes "y" ∷ codes "3" ∷ codes "z" ∷ codes "4" ∷ [])
          (find (codes "y") fields))
hget-hset_cmd_example =
    hget-hset_cmd (codes "h") (codes "y") (codes "y") (codes "3") (codes "z" ∷ codes "4" ∷ [])
      (pos 5) db fields refl fields_seen

hdel_cmd_lem_example :
    ((hdel_cmd (codes "h" ∷ codes "y" ∷ codes "x" ∷ []) (pos 5) db).0
      ≡ integer_ℕ (held_of (codes "y" ∷ codes "x" ∷ []) (view db (pos 5) (codes "h"))))
    × ((o : Option RedisObject) × IsAfterHdel
          (codes "y" ∷ codes "x" ∷ [])
          (view db (pos 5) (codes "h"))
          o
        × (view (hdel_cmd (codes "h" ∷ codes "y" ∷ codes "x" ∷ []) (pos 5) db).1 (pos 5) (codes "h")
            ≡ (if same (codes "h") (codes "h") then o else view db (pos 5) (codes "h"))))
hdel_cmd_lem_example = hdel_cmd_lem (codes "h") (codes "y") (codes "x" ∷ []) (codes "h") (pos 5) db

sadd_cmd_lem_example :
    ((sadd_cmd (codes "s" ∷ codes "d" ∷ codes "a" ∷ []) (pos 5) db).0
      ≡ added_reply (codes "d" ∷ codes "a" ∷ []) (set_of (view db (pos 5) (codes "s"))))
    × ((o : Option RedisObject) × IsAfterSadd
          (codes "d" ∷ codes "a" ∷ [])
          (view db (pos 5) (codes "s"))
          o
        × (view (sadd_cmd (codes "s" ∷ codes "d" ∷ codes "a" ∷ []) (pos 5) db).1 (pos 5) (codes "s")
            ≡ (if same (codes "s") (codes "s") then o else view db (pos 5) (codes "s"))))
sadd_cmd_lem_example = sadd_cmd_lem (codes "s") (codes "d") (codes "a" ∷ []) (codes "s") (pos 5) db

abbrev sevens : Draws
sevens n = 7

members-IsDistinct : IsDistinct members
unfolding has same
members-IsDistinct = (refl, (refl, (refl, tt)))

spop_cmd_lem_example :
    (o : Option RedisObject) × IsAfterSpop 2
      (missing_reply (codes "2" ∷ []))
      (popped_reply (codes "2" ∷ []))
      (view db (pos 5) (codes "s"))
      (spop_cmd sevens (codes "s" ∷ codes "2" ∷ []) (pos 5) db).0
      o
    × (view (spop_cmd sevens (codes "s" ∷ codes "2" ∷ []) (pos 5) db).1 (pos 5) (codes "s")
        ≡ (if same (codes "s") (codes "s") then o else view db (pos 5) (codes "s")))
unfolding parse_int view find same is_expired
spop_cmd_lem_example =
    spop_cmd_lem sevens (codes "s") (codes "2" ∷ []) (codes "s") (pos 5) db 2 refl
      members-IsDistinct
