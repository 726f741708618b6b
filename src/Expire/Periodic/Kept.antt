-- ===== src/Expire/Periodic/Kept.antt =====
-- `PeriodicCheck` of src/expire.cpp keeps whatever the deletion of a key keeps.
use redis_like.Base.{
  ℕ, zero, suc, ◌+◌, ◌%◌, ltb_ℤ, wrap, pos, ◌-ℤ◌, Bool, true, false, List, Bytes, ℤ, if◌then◌else◌,
  is_empty, length, get_elem?, Bool-cases, Option-cases, inl, inr,
}
use redis_like.Object.{is_expired}
use redis_like.Dict
use redis_like.Dict.{Dict}
use redis_like.Expire.Periodic.{
  Draws, take_out, check_key, sample, check_rounds, periodic_check, periodic_expire_check,
}

module _ (P : Dict → Type 0)
    (del-kept : (db : Dict) (key : Bytes) → P db → P (Dict.del db key).1) where
  check_key-kept : (now : ℤ) (db : Dict) (key : Bytes) → P db → P (check_key now db key).1
  unfolding check_key
  check_key-kept now db key p = elim (Option-cases (Dict.get db key)) [
    | inl e ↦ rw (e, check_key) p
    | inr (obj, e) ↦ elim (Bool-cases (is_expired obj now)) [
      | inl old ↦ rw (e, check_key, old) (del-kept db key p)
      | inr young ↦ rw (e, check_key, young) p
    ]
  ]

  sample-kept :
      (draw : Draws) (k : ℕ) (now : ℤ) (n : ℕ) (keys : List Bytes) (db : Dict)
      → P db
      → P (sample draw k now n keys db).db
  unfolding sample
  sample-kept draw k now zero keys db p = p
  sample-kept draw k now (suc n) keys db p =
      elim (Option-cases (get_elem? keys (draw k % length keys))) [
        | inl e ↦ rw (e, sample) p
        | inr (key, e) ↦
            rw (e, sample)
              (sample-kept draw (suc k) now n (take_out (draw k % length keys) keys)
                (check_key now db key).1 (check_key-kept now db key p))
      ]

  -- two results, of which a test takes one
  kept-if {ℓ} : {A : Type ℓ} (b : Bool) (p q : A × Dict) → P p.1 → P q.1 → P (if b then p else q).1
  kept-if true p q h k = h
  kept-if false p q h k = k

  check_rounds-kept :
      (n : ℕ) (draw : Draws) (k : ℕ) (now : ℤ) (size : ℕ) (keys : List Bytes) (db : Dict)
      → P db
      → P (check_rounds n draw k now size keys db).1
  unfolding check_rounds
  check_rounds-kept zero draw k now size keys db p = p
  check_rounds-kept (suc n) draw k now size keys db p =
      let s = sample draw k now size keys db in
      let next = check_rounds n draw (k + s.checked) now size s.keys s.db in
      let sampled = sample-kept draw k now size keys db p in
      kept-if _ (s.deleted, s.db) _ sampled
        (kept-if _ (s.deleted, s.db) (s.deleted + next.0, next.1) sampled
          (check_rounds-kept n draw (k + s.checked) now size s.keys s.db sampled))

  pub periodic_expire_check-kept :
      (draw : Draws) (now last : ℤ) (db : Dict)
      → P db
      → P (periodic_expire_check draw now last db).1
  unfolding periodic_expire_check periodic_check
  periodic_expire_check-kept draw now last db p =
      kept-if (ltb_ℤ (wrap (now -ℤ last)) (pos 100_000_000)) (last, db) _ p
        (kept-if (is_empty (Dict.keys db)) (0, db) _ p
          (check_rounds-kept 16 draw 0 now 20 (Dict.keys db) db p))
