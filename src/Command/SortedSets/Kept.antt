-- ===== src/Command/SortedSets/Kept.antt =====
-- ZADD and ZREM keep the skip lists of the keyspace valid; the count of ZREM and the ranks.
use redis_like.Base.{
  ℕ, suc, ◌+◌, ◌-◌, ◌%◌, ◌<◌, ◌≡◌, refl, sym, ◌∙◌, ap, false, not, ◌||◌, Option, none, some, List,
  [], ◌∷◌, arith, Bytes, if◌then◌else◌, ltb, ◌==◌, length, drop, same, Bool-cases, inl, inr, ℤ, pos,
  ◌-ℤ◌, -ℤ-pos,
}
use redis_like.Ds.SkipList.Queries.{get_score, get_rank, members}
use redis_like.Ds.Double.{is_nan}
use redis_like.Ds.SkipList
use redis_like.Ds.SkipList.{SkipList, SkipListNode, Rolls, Chain, ground_chain}
use redis_like.Ds.SkipList.Valid.{IsValid}
use redis_like.Ds.SkipList.Kept.{insert-IsValid, delete-IsValid, size-delete}
use redis_like.Ds.SkipList.Ranks.{position, get_rank-position}
use redis_like.Object.{zset}
use redis_like.Dict
use redis_like.Dict.{Dict}
use redis_like.Command.Context.{check_expire, get_typed, get_or_create}
use redis_like.Command.SortedSets.{
  DoubleText, parse_double, add_scores, add_onto, add_with, zadd_cmd, get_zset, delete_all,
  remove_from, zrem_cmd, rev_rank, rank_reply,
}
use redis_like.Resp.{integer}
use redis_like.Command.SortedSets.Valid.{
  AllValid, Opened, erase-AllValid, store-AllValid, check_expire-AllValid, get_zset-IsValid,
  or_created-Opened,
}

-- the scores that ZADD is given are numbers where they are read at all
abbrev pub IsNumber : Option ℕ → Type 0
IsNumber none = Unit
IsNumber (some v) = is_nan v ≡ false

abbrev pub AreNumbers : DoubleText → List Bytes → Type 0
AreNumbers text [] = Unit
AreNumbers text (s ∷ []) = Unit
AreNumbers text (s ∷ m ∷ rest) = IsNumber (parse_double text s) × AreNumbers text rest

module _ (text : DoubleText) (rolls : ℕ → Rolls) where
  add_scores-IsValid :
      (pairs : List Bytes) (k added : ℕ) (sl : SkipList)
      → AreNumbers text pairs
      → IsValid sl
      → IsValid (add_scores text rolls k added pairs sl).1
  unfolding add_scores
  add_scores-IsValid [] k added sl h valid = valid
  add_scores-IsValid (s ∷ []) k added sl h valid = valid
  add_scores-IsValid (s ∷ m ∷ rest) k added sl h valid =
      let next : (v : ℕ) → is_nan v ≡ false → IsValid (SkipList.insert (rolls k) v m sl).1 =
        λ v q. insert-IsValid (rolls k) v m sl valid q in
      (elim (parse_double text s)
          as (λ o.
            IsNumber o
            → IsValid
                (elim o as (λ _. Option ℕ × SkipList) [
                  | none ↦ (none, sl)
                  | some score ↦
                      add_scores text rolls (suc k)
                        (elim (get_score m sl) as (λ _. ℕ) [ none ↦ suc added | some _ ↦ added ])
                        rest (SkipList.insert (rolls k) score m sl).1
                ]).1) [
                  | none ↦ λ q. valid
                  | some v ↦ λ q.
                      add_scores-IsValid rest (suc k) _ (SkipList.insert (rolls k) v m sl).1 h.1
                        (next v q)
                ])
        h.0

  add_onto-AllValid :
      (key : Bytes) (pairs : List Bytes) (r : Option SkipList × Dict)
      → AreNumbers text pairs
      → Opened r
      → AllValid (add_onto text rolls key pairs r).1
  unfolding add_onto
  add_onto-AllValid key pairs (none, db) h o = o.dict
  add_onto-AllValid key pairs (some sl, db) h o =
      store-AllValid db key (zset (add_scores text rolls 0 0 pairs sl).1)
        (add_scores-IsValid pairs 0 0 sl h (o.opened sl refl)) o.dict

  zadd_cmd-AllValid :
      (args : List Bytes) (now : ℤ) (db : Dict)
      → AreNumbers text (drop 1 args)
      → AllValid db
      → AllValid (zadd_cmd text rolls args now db).1
  unfolding zadd_cmd add_with get_or_create
  zadd_cmd-AllValid [] now db h valid = valid
  zadd_cmd-AllValid (key ∷ pairs) now db h valid =
      let db₁ = check_expire db key now in
      let o =
        or_created-Opened db₁ key (Dict.get db₁ key) (check_expire-AllValid db key now valid)
          refl in
      elim (Bool-cases (ltb (length (key ∷ pairs)) 3 || not (length (key ∷ pairs) % 2 == 1))) [
        | inl e ↦ rw e valid
        | inr e ↦ rw e (add_onto-AllValid key pairs _ h o)
      ]

delete_all-IsValid :
    (ms : List Bytes) (n : ℕ) (sl : SkipList) → IsValid sl → IsValid (delete_all n ms sl).1
unfolding delete_all
delete_all-IsValid [] n sl valid = valid
delete_all-IsValid (m ∷ ms) n sl valid =
    delete_all-IsValid ms _ (SkipList.delete m sl).1 (delete-IsValid m sl valid)

remove_from-AllValid :
    (key : Bytes) (ms : List Bytes) (r : Option SkipList × Dict)
    → Opened r
    → AllValid (remove_from key ms r).1
unfolding remove_from Dict.del
remove_from-AllValid key ms (none, db) o = o.dict
remove_from-AllValid key ms (some sl, db) o =
    let sl' = (delete_all 0 ms sl).1 in
    let stored =
      store-AllValid db key (zset sl') (delete_all-IsValid ms 0 sl (o.opened sl refl)) o.dict in
    elim (Bool-cases (sl'.size == 0)) [
      | inl e ↦ rw e (erase-AllValid key (Dict.store db key (zset sl')) stored)
      | inr e ↦ rw e stored
    ]

zrem_cmd-AllValid :
    (args : List Bytes) (now : ℤ) (db : Dict) → AllValid db → AllValid (zrem_cmd args now db).1
unfolding zrem_cmd get_typed
zrem_cmd-AllValid [] now db valid = valid
zrem_cmd-AllValid (key ∷ []) now db valid = valid
zrem_cmd-AllValid (key ∷ m ∷ ms) now db valid =
    remove_from-AllValid key (m ∷ ms) (get_zset db key now) (record {
      dict = check_expire-AllValid db key now valid;
      opened = λ z e. get_zset-IsValid db key now z valid e;
    })

-- ZADD, if the scores that it reads are numbers, and ZREM keep every sorted set of the keyspace valid,
-- whatever their arguments are and whether they reply with an error or not.
pub zadd_zrem-AllValid :
    (text : DoubleText) (rolls : ℕ → Rolls) (args : List Bytes) (now : ℤ) (db : Dict)
    → AreNumbers text (drop 1 args)
    → AllValid db
    → AllValid (zadd_cmd text rolls args now db).1 × AllValid (zrem_cmd args now db).1
zadd_zrem-AllValid text rolls args now db h valid =
    (zadd_cmd-AllValid text rolls args now db h valid, zrem_cmd-AllValid args now db valid)

-- The reply of ZREM on a valid skip list is the number of members that the list has lost.
pub size-delete_all :
    (ms : List Bytes) (n : ℕ) (sl : SkipList)
    → IsValid sl
    → (delete_all n ms sl).1.size + (delete_all n ms sl).0 ≡ sl.size + n
unfolding delete_all
size-delete_all [] n sl valid = refl
size-delete_all (m ∷ ms) n sl valid =
    let rest =
      size-delete_all ms (if (SkipList.delete m sl).0 then suc n else n) (SkipList.delete m sl).1
        (delete-IsValid m sl valid) in
    rest ∙ ground (arith, size-delete m sl valid)

position_lt :
    (r k : ℕ) (m : Bytes) (c : Chain) → position r m (members c) ≡ some k → k < r + length c
unfolding position
position_lt r k m [] h = cc
position_lt r k m (x ∷ c) h = elim (Bool-cases (same x.member m)) [
  | inl e ↦ let own : r ≡ k = cc (rw e at h) in omega (arith, own)
  | inr e ↦ omega (arith, position_lt (suc r) k m c (rw e at h))
]

-- the rank of ZREVRANK, from the end
rev_rank-get_rank :
    (m : Bytes) (sl : SkipList) (r : ℕ)
    → IsValid sl
    → get_rank m sl ≡ some r
    → (r < sl.size) × (rev_rank sl.size r ≡ pos (sl.size - 1 - r))
unfolding rev_rank
rev_rank-get_rank m sl r valid h =
    let below = position_lt 0 r m (ground_chain sl) (sym (get_rank-position m sl valid) ∙ h) in
    (
      omega (arith, below, valid.counted),
      ap (λ i. i -ℤ pos r) (-ℤ-pos sl.size 1 (omega (arith, below, valid.counted)))
          ∙ -ℤ-pos (sl.size - 1) r (omega (arith, below, valid.counted)),
    )

-- a rank, if there is one, is below a number
abbrev pub IsBelow : ℕ → Option ℕ → Type 0
IsBelow n none = Unit
IsBelow n (some r) = r < n

-- the last two parts, for what `GetRank` gives
rev_ranked :
    (m : Bytes) (sl : SkipList) (o : Option ℕ)
    → IsValid sl
    → get_rank m sl ≡ o
    → IsBelow sl.size o
      × (rank_reply (rev_rank sl.size) o ≡ rank_reply (λ r. pos (sl.size - 1 - r)) o)
unfolding rank_reply
rev_ranked m sl none valid e = (tt, refl)
rev_ranked m sl (some r) valid e =
    let (below, same) = rev_rank-get_rank m sl r valid e in (below, ap integer same)

-- In a valid skip list, `GetRank` gives the place of the member on level 0, counted from 0, and null
-- for a member that is not there; a rank is below the size; and ZREVRANK replies with the place counted
-- from the end, which is never negative.
pub ranks_lem :
    (m : Bytes) (sl : SkipList)
    → IsValid sl
    → (get_rank m sl ≡ position 0 m (members (ground_chain sl)))
      × IsBelow sl.size (get_rank m sl)
      × (rank_reply (rev_rank sl.size) (get_rank m sl)
          ≡ rank_reply (λ r. pos (sl.size - 1 - r)) (get_rank m sl))
ranks_lem m sl valid =
    let (below, reply) = rev_ranked m sl (get_rank m sl) valid refl in
    (get_rank-position m sl valid, below, reply)
