-- ===== src/Tests/Snapshots.antt =====
-- Instances of the theorems on the snapshot file, the connections and the event loop.
use mathlib.Core.Path.{subst}
use redis_like.Base.{
  ◌-ℤ◌, put, length, ◌<◌, ◌^◌, sym, same, ◌≡◌, refl, true, [], ◌∷◌, some, none, arith, codes, has,
  IsDistinct, All, pos, find,
}
use redis_like.Ds.SkipList.{SkipList, Rolls, empty, insert, ground_chain}
use redis_like.Ds.SkipList.Queries.{range_by_rank, get_score}
use redis_like.Ds.SkipList.Valid.{IsValid, empty-IsValid}
use redis_like.Ds.SkipList.Kept.{insert-IsValid}
use redis_like.Ds.Double.{is_nan}
use redis_like.Object.{string, hash, list, zset}
use redis_like.Dict.{Dict}
use redis_like.Rdb.{ranked, save, load}
use redis_like.Rdb.Words.{Stream}
use redis_like.Rdb.RoundTrip.{cut_ms}
use redis_like.Rdb.Saved.{FitsEntry, restored_all, load-save}
use redis_like.Rdb.Rebuilt.{AreAlike}
use redis_like.Rdb.Loaded.{load-save_zset}
use redis_like.Rdb.Rounds.{Ends, load_entries-Ends}

abbrev ones : Rolls
ones k = 1

-- a text with an expiry time, a hash and a list
abbrev three_keys : Dict
three_keys =
    (codes "s", record { value = string (codes "x"); expire_at = some (pos 1_500_000) })
    ∷ (codes "h", record { value = hash ((codes "f", codes "v") ∷ []); expire_at = none })
    ∷ (codes "l", record { value = list (codes "a" ∷ codes "a" ∷ []); expire_at = none })
    ∷ []

three_keys-IsDistinct : IsDistinct three_keys
unfolding has same
three_keys-IsDistinct = (refl, (refl, (refl, tt)))

three_keys-Fits : All FitsEntry three_keys
unfolding has
three_keys-Fits = (
  (omega arith, refl, (omega arith, omega arith), omega arith),
  (
    (omega arith, refl, tt, (omega arith, ((omega arith, omega arith), tt), (refl, tt))),
    ((omega arith, refl, tt, (omega arith, (omega arith, (omega arith, tt)))), tt),
  ),
)

load-save_example :
    load (λ i. λ k. ones) (save three_keys) [] ≡ (true, restored_all (λ i. λ k. ones) 0 three_keys)
load-save_example = load-save (λ i. λ k. ones) three_keys three_keys-IsDistinct three_keys-Fits

-- the member b with 2.0
abbrev single : SkipList
single = (insert ones 0x4000_0000_0000_0000 (codes "b") empty).1

-- a keyspace with that sorted set
abbrev scores : Dict
scores = (codes "z", record { value = zset single; expire_at = none }) ∷ []

ranked-single : ranked single ≡ (codes "b", 0x4000_0000_0000_0000) ∷ []
unfolding ranked insert range_by_rank ◌-ℤ◌ find empty get_score put same
ranked-single = refl

scores-Fits : All FitsEntry scores
scores-Fits = (
  (
    omega arith,
    refl,
    tt,
    subst (λ l. (length l < 2 ^ 32) × All (λ p. (length p.0 < 2 ^ 32) × (p.1 < 2 ^ 64)) l)
        (sym ranked-single) (omega arith, ((omega arith, omega arith), tt)),
  ),
  tt,
)

load-save_zset_example :
    (y : SkipList) × (find (codes "z") (load (λ i. λ k. ones) (save scores) []).1
      ≡ some (record { value = zset y; expire_at = cut_ms none }))
    × IsValid y
    × AreAlike (ground_chain y) (ground_chain single)
unfolding has find same
load-save_zset_example =
    load-save_zset (λ i. λ k. ones) scores (codes "z") single none (refl, tt) scores-Fits refl
      (insert-IsValid ones 0x4000_0000_0000_0000 (codes "b") empty empty-IsValid
        (unfold is_nan in refl))

-- a file that ends within the length of a key
abbrev torn : Stream
torn = record { rest = 3 ∷ 0 ∷ []; good = true }

load_entries-Ends_example : Ends (λ i. λ k. ones) 0 [] torn
load_entries-Ends_example = load_entries-Ends (λ i. λ k. ones) 0 [] torn
