-- ===== src/Rdb/Loaded.antt =====
-- What stands at a key of a keyspace that `Save` has written and `Load` has read.
use redis_like.Base.{
  ℕ, suc, ◌≡◌, ◌∙◌, ap, Option, some, [], ◌∷◌, Bytes, same, ℤ, find, All, IsDistinct, arith, inl,
  inr, Bool-cases,
}
use redis_like.Ds.SkipList
use redis_like.Ds.SkipList.{SkipList, Rolls, ground_chain}
use redis_like.Ds.SkipList.Valid.{IsValid}
use redis_like.Object.{RedisObject, zset}
use redis_like.Dict.{Dict}
use redis_like.Rdb.{save, load, ranked}
use redis_like.Rdb.RoundTrip.{restored, rebuilt, cut_ms}
use redis_like.Rdb.Saved.{FitsEntry, restored_object, restored_all, load-save}
use redis_like.Rdb.Rebuilt.{AreAlike, rebuilt-ranked}

find-restored_all :
    (rolls : ℕ → ℕ → Rolls) (k : Bytes) (i : ℕ) (db : Dict) (obj : RedisObject)
    → find k db ≡ some obj
    → (n : ℕ) × (find k (restored_all rolls i db) ≡ some (restored_object (rolls n) obj))
unfolding restored_all find
find-restored_all rolls k i [] obj e = cc
find-restored_all rolls k i ((key, o) ∷ db) obj e = elim (Bool-cases (same key k)) [
  | inl b ↦
      let own : o ≡ obj = ground arith in
      (i, rw b (ap (λ o. some (restored_object (rolls i) o)) own))
  | inr b ↦ let (n, there) = find-restored_all rolls k (suc i) db obj (rw b at e) in (n, rw b there)
]

-- each object comes back as it is restored
pub find-load :
    (rolls : ℕ → ℕ → Rolls) (db : Dict) (key : Bytes) (obj : RedisObject)
    → IsDistinct db
    → All FitsEntry db
    → find key db ≡ some obj
    → (n : ℕ) × (find key (load rolls (save db) []).1 ≡ some (restored_object (rolls n) obj))
find-load rolls db key obj d fits e =
    let (n, there) = find-restored_all rolls key 0 db obj e in
    (n, ap (λ r. find key r.1) (load-save rolls db d fits) ∙ there)

-- A keyspace in which no key stands twice and each entry fits the file, and a key of it that holds a
-- valid sorted set: after `Save`, and `Load` into an empty keyspace, the key holds a valid sorted set
-- whose level 0 has the same members with the same scores in the same order, and its time is cut to
-- milliseconds.
pub load-save_zset :
    (rolls : ℕ → ℕ → Rolls) (db : Dict) (key : Bytes) (z : SkipList) (e : Option ℤ)
    → IsDistinct db
    → All FitsEntry db
    → find key db ≡ some (record { value = zset z; expire_at = e })
    → IsValid z
    → (y : SkipList) × (find key (load rolls (save db) []).1
        ≡ some (record { value = zset y; expire_at = cut_ms e }))
      × IsValid y
      × AreAlike (ground_chain y) (ground_chain z)
unfolding restored_object restored
load-save_zset rolls db key z e d fits there valid =
    let (n, back) =
      find-load rolls db key (record { value = zset z; expire_at = e }) d fits there in
    let (kept, alike) = rebuilt-ranked (rolls n) z valid in
    (rebuilt (rolls n) 0 SkipList.empty (ranked z), back, kept, alike)
