-- ===== src/Expire/Periodic/Laws.antt =====
-- What `PeriodicCheck` deletes.
use redis_like.Base.{
  ℕ, zero, suc, ◌+◌, ◌%◌, ◌≡◌, refl, ◌∙◌, Bool, true, false, some, List, arith, Bytes, ℤ,
  if◌then◌else◌, same_iff, is_empty, length, get_elem?, find-erase, has-find, IsDistinct,
  erase-IsDistinct, length-erase, Bool-cases, Option-cases, inl, inr,
}
use redis_like.Object.{RedisObject, is_expired}
use redis_like.Dict
use redis_like.Dict.{Dict}
use redis_like.Expire.View.{view}
use redis_like.Expire.Periodic.{
  Draws, take_out, check_key, count_if, sample, check_rounds, periodic_check,
}

-- `n` entries are gone, and nothing that a client sees at the time has changed
pub record IsPurged (now : ℤ) (n : ℕ) (before after : Dict) : Type 0 where
  pub distinct : IsDistinct after
  pub count : n + Dict.size after ≡ Dict.size before
  pub seen : (j : Bytes) → view after now j ≡ view before now j

IsPurged-refl : (now : ℤ) (db : Dict) → IsDistinct db → IsPurged now 0 db db
IsPurged-refl now db d = record { distinct = d; count = omega arith; seen = λ j. refl }

-- a drawn key in front of a purge
IsPurged-step :
    (now : ℤ) (gone : Bool) (n : ℕ) (a b c : Dict)
    → IsPurged now (count_if gone 0) a b
    → IsPurged now n b c
    → IsPurged now (count_if gone n) a c
IsPurged-step now true n a b c p q = record {
  distinct = q.distinct;
  count = omega (arith, p.count, q.count);
  seen = λ j. q.seen j ∙ p.seen j;
}
IsPurged-step now false n a b c p q = record {
  distinct = q.distinct;
  count = omega (arith, p.count, q.count);
  seen = λ j. q.seen j ∙ p.seen j;
}

IsPurged-del :
    (now : ℤ) (db : Dict) (key : Bytes) (obj : RedisObject)
    → IsDistinct db
    → Dict.get db key ≡ some obj
    → is_expired obj now ≡ true
    → IsPurged now 1 db (Dict.del db key).1
unfolding Dict.get Dict.del view
IsPurged-del now db key obj d there old = record {
  distinct = erase-IsDistinct key db d;
  count = ground (arith, length-erase {0} key db d, has-find key db);
  seen = λ j. ground (arith, find-erase key j db, same_iff key j);
}

check_key-IsPurged :
    (now : ℤ) (db : Dict) (key : Bytes)
    → IsDistinct db
    → IsPurged now (count_if (check_key now db key).0 0) db (check_key now db key).1
unfolding check_key
check_key-IsPurged now db key d = elim (Option-cases (Dict.get db key)) [
  | inl e ↦ rw (e, check_key) (IsPurged-refl now db d)
  | inr (obj, e) ↦ elim (Bool-cases (is_expired obj now)) [
    | inl old ↦ rw (e, check_key, old) (IsPurged-del now db key obj d e old)
    | inr young ↦ rw (e, check_key, young) (IsPurged-refl now db d)
  ]
]

sample-IsPurged :
    (draw : Draws) (k : ℕ) (now : ℤ) (n : ℕ) (keys : List Bytes) (db : Dict)
    → IsDistinct db
    → IsPurged now (sample draw k now n keys db).deleted db (sample draw k now n keys db).db
unfolding sample
sample-IsPurged draw k now zero keys db d = IsPurged-refl now db d
sample-IsPurged draw k now (suc n) keys db d =
    elim (Option-cases (get_elem? keys (draw k % length keys))) [
      | inl e ↦ rw (e, sample) (IsPurged-refl now db d)
      | inr (key, e) ↦
          let first = check_key-IsPurged now db key d in
          rw (e, sample)
            (IsPurged-step now (check_key now db key).0 _ db (check_key now db key).1 _ first (
              sample-IsPurged draw (suc k) now n (take_out (draw k % length keys) keys)
                (check_key now db key).1 first.distinct))
    ]

-- two results, of which a test takes one
IsPurged-if :
    (b : Bool) (now : ℤ) (before : Dict) (p q : ℕ × Dict)
    → IsPurged now p.0 before p.1
    → IsPurged now q.0 before q.1
    → IsPurged now (if b then p else q).0 before (if b then p else q).1
IsPurged-if true now before p q h k = h
IsPurged-if false now before p q h k = k

IsPurged-trans :
    (now : ℤ) (m n : ℕ) (a b c : Dict)
    → IsPurged now m a b
    → IsPurged now n b c
    → IsPurged now (m + n) a c
IsPurged-trans now m n a b c p q = record {
  distinct = q.distinct;
  count = omega (arith, p.count, q.count);
  seen = λ j. q.seen j ∙ p.seen j;
}

check_rounds-IsPurged :
    (n : ℕ) (draw : Draws) (k : ℕ) (now : ℤ) (size : ℕ) (keys : List Bytes) (db : Dict)
    → IsDistinct db
    → IsPurged now
        (check_rounds n draw k now size keys db).0
        db
        (check_rounds n draw k now size keys db).1
unfolding check_rounds
check_rounds-IsPurged zero draw k now size keys db d = IsPurged-refl now db d
check_rounds-IsPurged (suc n) draw k now size keys db d =
    let s = sample draw k now size keys db in
    let purged = sample-IsPurged draw k now size keys db d in
    let more = check_rounds-IsPurged n draw (k + s.checked) now size s.keys s.db purged.distinct in
    let next = check_rounds n draw (k + s.checked) now size s.keys s.db in
    IsPurged-if _ now db (s.deleted, s.db) _ purged
      (IsPurged-if _ now db (s.deleted, s.db) (s.deleted + next.0, next.1) purged
        (IsPurged-trans now s.deleted next.0 db s.db next.1 purged more))

-- On a keyspace with distinct keys, whatever is drawn and with any sample size, `PeriodicCheck`
-- returns the number of entries that it has taken out of the keyspace, keeps the keys distinct,
-- and changes nothing that is seen: what it deletes has expired.
pub periodic_check-IsPurged :
    (draw : Draws) (now : ℤ) (sample_size : ℕ) (db : Dict)
    → IsDistinct db
    → IsPurged now
        (periodic_check draw now sample_size db).0
        db
        (periodic_check draw now sample_size db).1
unfolding periodic_check
periodic_check-IsPurged draw now sample_size db d =
    IsPurged-if (is_empty (Dict.keys db)) now db (0, db) _ (IsPurged-refl now db d)
      (check_rounds-IsPurged 16 draw 0 now sample_size (Dict.keys db) db d)
