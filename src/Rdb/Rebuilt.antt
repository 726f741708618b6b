-- ===== src/Rdb/Rebuilt.antt =====
-- A sorted set whose members are inserted one after the other into an empty one.
use mathlib.Core.Path.{subst}
use redis_like.Base.{
  ℕ, zero, suc, ◌-◌, ◌≤◌, ◌≡◌, refl, sym, ◌∙◌, ap, true, false, none, some, List, [], ◌∷◌, ◌++◌,
  append_assoc, append-nil, Bytes, same, same_refl, length, take, drop, All, arith, inl, inr, find,
  pos, negsuc, ◌-ℤ◌, -ℤ_parts, -ℤ-pos, eq_of_parts,
}
use redis_like.Ds.SkipList.Queries.{get_score, members, range_by_rank}
use redis_like.Ds.Double.{is_nan}
use redis_like.Ds.SkipList
use redis_like.Ds.SkipList.{
  SkipListNode, Chain, SkipList, Rolls, insert, insert_node, floor, ground_chain, scores_below,
  ties_below,
}
use redis_like.Ds.SkipList.Order.{is_below, before, IsSorted}
use redis_like.Ds.SkipList.Search.{Has}
use redis_like.Ds.SkipList.Placed.{put_in, Has-All, All-of-Has}
use redis_like.Ds.SkipList.Valid.{score_in, AreUnique, IsValid, empty-IsValid}
use redis_like.Ds.SkipList.Insert.{fresh, insert_node-floor, insert_node-IsValid}
use redis_like.Ds.SkipList.Kept.{insert-new}
use redis_like.Ds.SkipList.Ranks.{floor-IsSorted, from_size-pos, minus_zero}
use redis_like.Rdb.{scored, ranked}
use redis_like.Rdb.RoundTrip.{rebuilt}

-- the members with their scores
abbrev pairs : Chain → List (Bytes × ℕ)
pairs [] = []
pairs (n ∷ c) = (n.member, n.score) ∷ pairs c

take_all : (n : ℕ) (c : Chain) → length c ≤ n → take n c ≡ c
take_all zero [] h = refl
take_all zero (x ∷ c) h = absurd (omega (arith, h))
take_all (suc n) [] h = refl
take_all (suc n) (x ∷ c) h = ap (λ l. x ∷ l) (take_all n c (omega (arith, h)))

before_first : pos 0 -ℤ pos 1 ≡ negsuc 0
before_first = eq_of_parts (pos 0 -ℤ pos 1) (negsuc 0) (omega (arith, -ℤ_parts (pos 0) (pos 1)))

range_by_rank-none : (sl : SkipList) → sl.size ≡ 0 → range_by_rank (pos 0) (negsuc 0) sl ≡ []
unfolding range_by_rank
range_by_rank-none sl e = rw (range_by_rank, e) refl

range_by_rank-pos :
    (a k : ℕ) (sl : SkipList)
    → a ≤ k
    → range_by_rank (pos a) (pos k) sl ≡ members (take (suc (k - a)) (drop a (floor sl.chains)))
unfolding range_by_rank
range_by_rank-pos a k sl h =
    rw (range_by_rank, from_size-pos sl.size a, from_size-pos sl.size k) (ground arith)

range_by_rank-from_start :
    (k : ℕ) (sl : SkipList)
    → range_by_rank (pos 0) (pos k) sl ≡ members (take (suc k) (floor sl.chains))
range_by_rank-from_start k sl =
    range_by_rank-pos 0 k sl (omega arith)
    ∙ ap (λ j. members (take (suc j) (floor sl.chains))) (sym (minus_zero k))

-- `RangeByRank(0, Size() - 1)` is all of level 0
range_by_rank-all :
    (sl : SkipList) (size : ℕ)
    → sl.size ≡ size
    → size ≡ length (ground_chain sl)
    → range_by_rank (pos 0) (pos size -ℤ pos 1) sl ≡ members (ground_chain sl)
range_by_rank-all sl zero e h =
    ap (λ i. range_by_rank (pos 0) i sl) before_first
    ∙ range_by_rank-none sl e
    ∙ ap members (sym (no_nodes (floor sl.chains) h))
  where
    no_nodes : (c : Chain) → 0 ≡ length c → c ≡ []
    no_nodes [] h = refl
    no_nodes (x ∷ c) h = absurd (omega (arith, h))
range_by_rank-all sl (suc k) e h =
    ap (λ i. range_by_rank (pos 0) i sl) (-ℤ-pos (suc k) 1 (omega arith))
    ∙ ap (λ j. range_by_rank (pos 0) (pos j) sl) (less k)
    ∙ range_by_rank-from_start k sl
    ∙ ap members (take_all (suc k) (floor sl.chains) (omega (arith, h)))
  where
    less : (k : ℕ) → suc k - 1 ≡ k
    less k = omega arith

score_in-Has :
    (n : SkipListNode) (c : Chain) → AreUnique c → Has n c → score_in n.member c ≡ some n.score
unfolding score_in
score_in-Has n [] u h = elim h [ ]
score_in-Has n (x ∷ c) u (inl s) =
    let own : same x.member n.member ≡ true =
      ap (λ y. same y.member n.member) s ∙ same_refl n.member in
    rw own (ap (λ y. some y.score) s)
score_in-Has n (x ∷ c) u (inr h) =
    let other = Has-All (λ y. same x.member y.member ≡ false) n c h u.0 in
    rw other (score_in-Has n c u.1 h)

scored-pairs :
    (sl : SkipList) (c : Chain)
    → All (λ n. find n.member sl.score_map ≡ some n.score) c
    → scored sl (members c) ≡ pairs c
unfolding scored
scored-pairs sl [] h = refl
scored-pairs sl (n ∷ c) h =
    let score : get_score n.member sl ≡ some n.score = unfold get_score in h.0 in
    rw (scored, score) (ap (λ l. (n.member, n.score) ∷ l) (scored-pairs sl c h.1))

ranked-pairs : (sl : SkipList) → IsValid sl → ranked sl ≡ pairs (ground_chain sl)
unfolding ranked
ranked-pairs sl valid =
    ap (scored sl) (range_by_rank-all sl sl.size refl valid.counted)
    ∙ scored-pairs sl (floor sl.chains) (
        All-of-Has (λ n. find n.member sl.score_map ≡ some n.score) (floor sl.chains)
          (λ n h. valid.indexed n.member ∙ score_in-Has n (floor sl.chains) valid.unique h))

-- chains with the same members and scores, in the same order
abbrev pub AreAlike : Chain → Chain → Type 0
AreAlike [] [] = Unit
AreAlike [] (y ∷ d) = ⊥
AreAlike (x ∷ c) [] = ⊥
AreAlike (x ∷ c) (y ∷ d) = (x.member ≡ y.member) × (x.score ≡ y.score) × AreAlike c d

AreAlike-append :
    (x y : SkipListNode) (c d : Chain)
    → AreAlike c d
    → x.member ≡ y.member
    → x.score ≡ y.score
    → AreAlike (c ++ x ∷ []) (d ++ y ∷ [])
AreAlike-append x y [] [] h e f = (e, f, tt)
AreAlike-append x y [] (z ∷ d) h e f = elim h [ ]
AreAlike-append x y (w ∷ c) [] h e f = elim h [ ]
AreAlike-append x y (w ∷ c) (z ∷ d) h e f = (h.0, h.1, AreAlike-append x y c d h.2 e f)

AreAlike-score_in : (m : Bytes) (c d : Chain) → AreAlike c d → score_in m c ≡ score_in m d
unfolding score_in
AreAlike-score_in m [] [] h = refl
AreAlike-score_in m [] (z ∷ d) h = elim h [ ]
AreAlike-score_in m (w ∷ c) [] h = elim h [ ]
AreAlike-score_in m (x ∷ c) (y ∷ d) h = rw (h.0, h.1, AreAlike-score_in m c d h.2) refl

is_below-alike :
    (score : ℕ) (member : Bytes) (x y : SkipListNode)
    → x.member ≡ y.member
    → x.score ≡ y.score
    → is_below score member x ≡ is_below score member y
unfolding is_below scores_below ties_below
is_below-alike score member x y e f = rw (e, f) refl

-- a node behind all others goes to the end
put_in-last :
    (n y : SkipListNode) (c d : Chain)
    → AreAlike c d
    → y.score ≡ n.score
    → y.member ≡ n.member
    → All (λ x. before x y ≡ true) d
    → put_in n c ≡ c ++ n ∷ []
unfolding put_in
put_in-last n y [] [] h s m all = refl
put_in-last n y [] (z ∷ d) h s m all = elim h [ ]
put_in-last n y (x ∷ c) [] h s m all = elim h [ ]
put_in-last n y (x ∷ c) (z ∷ d) h s m all =
    let below : before x n ≡ true =
      is_below-alike n.score n.member x z h.0 h.1
      ∙ ap (λ t. is_below t n.member z) (sym s)
      ∙ ap (λ k. is_below y.score k z) (sym m)
      ∙ all.0 in
    rw below (ap (λ l. x ∷ l) (put_in-last n y c d h.2 s m all.1))

-- the members before a node of a chain without doubles, and their order
before_middle :
    (n : SkipListNode) (c d : Chain) → IsSorted (c ++ n ∷ d) → All (λ x. before x n ≡ true) c
before_middle n [] d h = tt
before_middle n (x ∷ c) d h = (middle n x c d h.0, before_middle n c d h.1)
  where
    middle :
        (n x : SkipListNode) (c d : Chain)
        → All (λ y. before x y ≡ true) (c ++ n ∷ d)
        → before x n ≡ true
    middle n x [] d h = h.0
    middle n x (y ∷ c) d h = middle n x c d h.1

absent_middle :
    (n : SkipListNode) (c d : Chain) → AreUnique (c ++ n ∷ d) → score_in n.member c ≡ none
unfolding score_in
absent_middle n [] d u = refl
absent_middle n (x ∷ c) d u = rw (middle n x c d u.0) (absent_middle n c d u.1)
  where
    middle :
        (n x : SkipListNode) (c d : Chain)
        → All (λ y. same x.member y.member ≡ false) (c ++ n ∷ d)
        → same x.member n.member ≡ false
    middle n x [] d h = h.0
    middle n x (y ∷ c) d h = middle n x c d h.1

module _ (rolls : ℕ → Rolls) where
  -- a valid list that holds the first part of a chain gets the other part
  rebuilt_onto :
      (c d : Chain) (k : ℕ) (sl : SkipList)
      → IsSorted (c ++ d)
      → AreUnique (c ++ d)
      → All (λ n. is_nan n.score ≡ false) d
      → IsValid sl
      → AreAlike (ground_chain sl) c
      → IsValid (rebuilt rolls k sl (pairs d))
        × AreAlike (ground_chain (rebuilt rolls k sl (pairs d))) (c ++ d)
  unfolding rebuilt
  rebuilt_onto c [] k sl sorted u numbers valid alike =
      (valid, subst (AreAlike (ground_chain sl)) (sym (append-nil c)) alike)
  rebuilt_onto c (n ∷ d) k sl sorted u numbers valid alike =
      let absent : find n.member sl.score_map ≡ none =
        valid.indexed n.member
        ∙ AreAlike-score_in n.member (floor sl.chains) c alike
        ∙ absent_middle n c d u in
      let new = fresh (rolls k) n.score n.member sl in
      let sl' = insert_node (rolls k) n.score n.member sl in
      let level0 : ground_chain sl' ≡ ground_chain sl ++ new ∷ [] =
        insert_node-floor (rolls k) n.score n.member sl valid.tower
        ∙ put_in-last new n (floor sl.chains) c alike refl refl (before_middle n c d sorted) in
      let whole = append_assoc c (n ∷ []) d in
      let same_as = AreAlike-append new n (floor sl.chains) c alike refl refl in
      let next =
        rebuilt_onto (c ++ n ∷ []) d (suc k) sl' (subst IsSorted (sym whole) sorted)
          (subst AreUnique (sym whole) u) numbers.1
          (insert_node-IsValid (rolls k) n.score n.member sl valid numbers.0 absent)
          (subst (λ e. AreAlike e (c ++ n ∷ [])) (sym level0) same_as) in
      let step =
        ap (λ q. rebuilt rolls (suc k) q.1 (pairs d))
          (insert-new (rolls k) n.score n.member sl absent) in
      subst (λ r. IsValid r × AreAlike (ground_chain r) (c ++ n ∷ d)) (sym step)
        (next.0, subst (AreAlike (ground_chain (rebuilt rolls (suc k) sl' (pairs d)))) whole next.1)

  -- what `RangeByRank` gives of a valid sorted set, inserted in its order
  pub rebuilt-ranked :
      (z : SkipList)
      → IsValid z
      → IsValid (rebuilt rolls 0 SkipList.empty (ranked z))
        × AreAlike (ground_chain (rebuilt rolls 0 SkipList.empty (ranked z))) (ground_chain z)
  rebuilt-ranked z valid =
      subst
        (λ l.
          IsValid (rebuilt rolls 0 SkipList.empty l)
          × AreAlike (ground_chain (rebuilt rolls 0 SkipList.empty l)) (floor z.chains))
        (sym (ranked-pairs z valid))
        (rebuilt_onto [] (floor z.chains) 0 SkipList.empty (floor-IsSorted z.chains valid.tower)
          valid.unique valid.numbers empty-IsValid (unfold SkipList.empty in tt))
