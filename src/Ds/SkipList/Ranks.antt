-- ===== src/Ds/SkipList/Ranks.antt =====
-- `GetRank`, `RangeByRank` and `RangeByScore` against the list of the members in their order.
use redis_like.Base.{
  ℕ, suc, ◌-◌, ◌≤◌, ◌≡◌, refl, sym, ◌∙◌, ap, true, false, not, ◌&&◌, Option, none, some, List, [],
  ◌∷◌, take, drop, arith, All, Bytes, same, same_refl, same_iff, if◌then◌else◌, inl, inr,
  Bool-cases, find, pos,
}
use redis_like.Ds.SkipList.Queries.{
  rank_from, get_rank, members, from_size, range_by_rank, skip_scores, take_scores, range_by_score,
}
use redis_like.Ds.Double.{is_nan, lt_double, le_double, eq_double}
use redis_like.Ds.SkipList.{
  SkipListNode, Chain, SkipList, floor, ground_chain, scores_below, ties_below,
}
use redis_like.Ds.SkipList.Order.{is_below, before, IsSorted, before_irrefl}
use redis_like.Ds.SkipList.Search.{Has, IsTower}
use redis_like.Ds.SkipList.Placed.{Has-All}
use redis_like.Ds.SkipList.Valid.{AreUnique, IsValid, score_in-none}
use redis_like.Ds.SkipList.Delete.{score_in-Located}

-- the place of a member in a list of members, counted from a number
unfoldable pub position : ℕ → Bytes → List Bytes → Option ℕ
position r m [] = none
position r m (x ∷ l) = let further = position (suc r) m l in if same x m then some r else further

position-absent :
    (r : ℕ) (m : Bytes) (c : Chain)
    → All (λ n. same n.member m ≡ false) c
    → position r m (members c) ≡ none
unfolding position
position-absent r m [] h = refl
position-absent r m (x ∷ c) h = rw h.0 (position-absent (suc r) m c h.1)

rank_from-position :
    (n : SkipListNode) (r : ℕ) (c : Chain)
    → IsSorted c
    → AreUnique c
    → Has n c
    → rank_from r n.score n.member c ≡ position r n.member (members c)
unfolding rank_from position is_below
rank_from-position n r [] sorted u h = elim h [ ]
rank_from-position n r (x ∷ c) sorted u (inl s) =
    let no = before_irrefl x n (ap (λ y. y.score) s) (ap (λ y. y.member) s) in
    let own : same x.member n.member ≡ true =
      ap (λ y. same y.member n.member) s ∙ same_refl n.member in
    rw (no, own) refl
rank_from-position n r (x ∷ c) sorted u (inr h) =
    let yes = Has-All (λ y. before x y ≡ true) n c h sorted.0 in
    let other = Has-All (λ y. same x.member y.member ≡ false) n c h u.0 in
    rw (yes, other) (rank_from-position n (suc r) c sorted.1 u.1 h)

pub floor-IsSorted : (cs : List Chain) → IsTower cs → IsSorted (floor cs)
floor-IsSorted [] h = tt
floor-IsSorted (c ∷ cs) h = h.1

get_rank_at :
    (m : Bytes) (sl : SkipList) (o : Option ℕ)
    → find m sl.score_map ≡ o
    → IsValid sl
    → get_rank m sl ≡ position 0 m (members (ground_chain sl))
unfolding get_rank
get_rank_at m sl none e valid =
    let others = score_in-none m (floor sl.chains) (sym (valid.indexed m) ∙ e) in
    rw (get_rank, e) (sym (position-absent 0 m (floor sl.chains) others))
get_rank_at m sl (some s) e valid =
    let l = score_in-Located m s (floor sl.chains) (sym (valid.indexed m) ∙ e) in
    let own =
      rank_from-position l.node 0 (floor sl.chains) (floor-IsSorted sl.chains valid.tower)
        valid.unique l.there in
    rw (get_rank, e) (rw (l.its_score, l.its_member) at own)

-- In a valid skip list, `GetRank` gives the place of the member on level 0, counted from 0, and null
-- for a member that is not there.
pub get_rank-position :
    (m : Bytes) (sl : SkipList)
    → IsValid sl
    → get_rank m sl ≡ position 0 m (members (ground_chain sl))
get_rank-position m sl valid = get_rank_at m sl (find m sl.score_map) refl valid

take-drop-position :
    (r k : ℕ) (m : Bytes) (c : Chain)
    → position r m (members c) ≡ some k
    → (r ≤ k) × (members (take 1 (drop (k - r) c)) ≡ m ∷ [])
unfolding position
take-drop-position r k m [] h = cc
take-drop-position r k m (x ∷ c) h = elim (Bool-cases (same x.member m)) [
  | inl e ↦
      let s : r ≡ k = cc (rw e at h) in
      (omega (arith, s), rw (sub_self r k s) (ap (λ j. j ∷ []) ((same_iff x.member m).0 e)))
  | inr e ↦
      let p = take-drop-position (suc r) k m c (rw e at h) in
      (omega (arith, p.0), rw (sub_suc r k p.0) (p.1))
]
  where
    sub_self : (r k : ℕ) → r ≡ k → k - r ≡ 0
    sub_self r k s = omega (arith, s)

    sub_suc : (r k : ℕ) → suc r ≤ k → k - r ≡ suc (k - suc r)
    sub_suc r k h = omega (arith, h)

pub from_size-pos : (size r : ℕ) → from_size size (pos r) ≡ pos r
unfolding from_size
from_size-pos size r = ground arith

minus_self : (r : ℕ) → r - r ≡ 0
minus_self r = omega arith

pub minus_zero : (r : ℕ) → r ≡ r - 0
minus_zero r = omega arith

range_by_rank-single :
    (r : ℕ) (sl : SkipList)
    → range_by_rank (pos r) (pos r) sl ≡ members (take 1 (drop r (floor sl.chains)))
unfolding range_by_rank
range_by_rank-single r sl = rw (range_by_rank, from_size-pos sl.size r, minus_self r) (ground arith)

-- In a valid skip list, `RangeByRank` from the rank that `GetRank` gives for a member up to the same
-- rank is the member alone.
pub range_by_rank-get_rank :
    (m : Bytes) (sl : SkipList) (r : ℕ)
    → IsValid sl
    → get_rank m sl ≡ some r
    → range_by_rank (pos r) (pos r) sl ≡ m ∷ []
range_by_rank-get_rank m sl r valid h =
    let p = take-drop-position 0 r m (floor sl.chains) (sym (get_rank-position m sl valid) ∙ h) in
    range_by_rank-single r sl
    ∙ ap (λ k. members (take 1 (drop k (floor sl.chains)))) (minus_zero r)
    ∙ p.1

-- the members whose scores lie between two bounds
unfoldable pub scores_within : ℕ → ℕ → Chain → List Bytes
scores_within lo hi [] = []
scores_within lo hi (n ∷ c) =
    let rest = scores_within lo hi c in
    if le_double lo n.score && le_double n.score hi then n.member ∷ rest else rest

before-le :
    (x y : SkipListNode) (hi : ℕ)
    → before x y ≡ true
    → le_double y.score hi ≡ true
    → le_double x.score hi ≡ true
unfolding is_below scores_below ties_below lt_double le_double eq_double
before-le x y hi h k = ground arith

before-ge :
    (x y : SkipListNode) (lo : ℕ)
    → before x y ≡ true
    → le_double lo x.score ≡ true
    → le_double lo y.score ≡ true
unfolding is_below scores_below ties_below lt_double le_double eq_double
before-ge x y lo h k = ground arith

lt-le : (lo x : ℕ) → is_nan lo ≡ false → is_nan x ≡ false → le_double lo x ≡ not (lt_double x lo)
unfolding lt_double le_double
lt-le lo x p q = ground arith

module _ (lo hi : ℕ) where
  none_above :
      (x : SkipListNode) (c : Chain)
      → All (λ y. before x y ≡ true) c
      → le_double x.score hi ≡ false
      → scores_within lo hi c ≡ []
  unfolding scores_within
  none_above x [] h e = refl
  none_above x (y ∷ c) h e = ground (arith, none_above x c h.1 e, before-le x y hi)

  take_scores-scores_within :
      (c : Chain)
      → IsSorted c
      → All (λ y. le_double lo y.score ≡ true) c
      → take_scores hi c ≡ scores_within lo hi c
  unfolding take_scores scores_within
  take_scores-scores_within [] sorted h = refl
  take_scores-scores_within (x ∷ c) sorted h = elim (Bool-cases (le_double x.score hi)) [
    | inl e ↦ rw (e, h.0) (ap (λ l. x.member ∷ l) (take_scores-scores_within c sorted.1 h.1))
    | inr e ↦ rw (e, h.0, none_above x c sorted.0 e) refl
  ]

  all_above :
      (x : SkipListNode) (c : Chain)
      → All (λ y. before x y ≡ true) c
      → le_double lo x.score ≡ true
      → All (λ y. le_double lo y.score ≡ true) c
  all_above x [] h e = tt
  all_above x (y ∷ c) h e = (before-ge x y lo h.0 e, all_above x c h.1 e)

  range-scores_within :
      (c : Chain)
      → is_nan lo ≡ false
      → IsSorted c
      → All (λ y. is_nan y.score ≡ false) c
      → take_scores hi (skip_scores lo c) ≡ scores_within lo hi c
  unfolding skip_scores scores_within take_scores
  range-scores_within [] p sorted h = refl
  range-scores_within (x ∷ c) p sorted h = elim (Bool-cases (lt_double x.score lo)) [
    | inl e ↦
        let below : le_double lo x.score ≡ false = lt-le lo x.score p h.0 ∙ ap not e in
        rw (e, below) (range-scores_within c p sorted.1 h.1)
    | inr e ↦
        let here : le_double lo x.score ≡ true = lt-le lo x.score p h.0 ∙ ap not e in
        rw e (take_scores-scores_within (x ∷ c) sorted (here, all_above x c sorted.0 here))
  ]

-- In a valid skip list, `RangeByScore` with a lower bound that is a number gives the members of level 0
-- whose scores are not below it and not above the upper bound, in their order.
pub range_by_score-scores_within :
    (lo hi : ℕ) (sl : SkipList)
    → IsValid sl
    → is_nan lo ≡ false
    → range_by_score lo hi sl ≡ scores_within lo hi (ground_chain sl)
unfolding range_by_score
range_by_score-scores_within lo hi sl valid p =
    range-scores_within lo hi (floor sl.chains) p (floor-IsSorted sl.chains valid.tower)
      valid.numbers
