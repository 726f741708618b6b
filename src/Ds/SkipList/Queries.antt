-- ===== src/Ds/SkipList/Queries.antt =====
-- `GetScore`, `GetRank`, `RangeByRank` and `RangeByScore` of src/ds/skiplist.cpp.
use redis_like.Base.{
  ℕ, suc, ◌-◌, ◌||◌, Option, none, some, List, [], ◌∷◌, Bytes, find, same, if◌then◌else◌, take,
  drop, ℤ, pos, pos_part, ◌+ℤ◌, ltb_ℤ,
}
use redis_like.Ds.Double.{lt_double, le_double}
use redis_like.Ds.SkipList.{Chain, SkipList, scores_below, ties_below, ground_chain}

unfoldable pub get_score : Bytes → SkipList → Option ℕ
get_score member sl = find member sl.score_map

-- the loop of `GetRank`
unfoldable pub rank_from : ℕ → ℕ → Bytes → Chain → Option ℕ
unfolding scores_below ties_below
rank_from rank score member [] = none
rank_from rank score member (n ∷ c) =
    let further = rank_from (suc rank) score member c in
    let past = rank_from rank score member c in
    if scores_below score n || ties_below score member n
    then further
    else if same n.member member
    then some rank
    else past

unfoldable pub get_rank : Bytes → SkipList → Option ℕ
unfolding rank_from
get_rank member sl = elim (find member sl.score_map) [
  | none ↦ none
  | some score ↦ rank_from 0 score member (ground_chain sl)
]

abbrev pub members : Chain → List Bytes
members [] = []
members (n ∷ c) = n.member ∷ members c

-- `if (start < 0) start = size_ + start;`
unfoldable pub from_size : ℕ → ℤ → ℤ
unfolding ◌+ℤ◌
from_size sz i = if ltb_ℤ i (pos 0) then pos sz +ℤ i else i

-- The two loops of `RangeByRank` skip `start` nodes and take those up to `stop`.
unfoldable pub range_by_rank : ℤ → ℤ → SkipList → List Bytes
unfolding from_size
range_by_rank start stop sl =
    let first = pos_part (from_size sl.size start) in
    let last = from_size sl.size stop in
    if ltb_ℤ last (pos 0) || ltb_ℤ last (pos first)
    then []
    else members (take (suc (pos_part last - first)) (drop first (ground_chain sl)))

unfoldable pub skip_scores : ℕ → Chain → Chain
skip_scores lo [] = []
skip_scores lo (n ∷ c) = let rest = skip_scores lo c in if lt_double n.score lo then rest else n ∷ c

unfoldable pub take_scores : ℕ → Chain → List Bytes
take_scores hi [] = []
take_scores hi (n ∷ c) =
    let rest = take_scores hi c in if le_double n.score hi then n.member ∷ rest else []

unfoldable pub range_by_score : ℕ → ℕ → SkipList → List Bytes
unfolding skip_scores take_scores
range_by_score lo hi sl = take_scores hi (skip_scores lo (ground_chain sl))
