-- ===== src/Ds/SkipList/Valid.antt =====
-- The invariant of the skip list. The empty list has it.
use redis_like.Base.{
  ◌≤◌, ℕ, ◌<◌, ◌≡◌, refl, false, Option, none, some, [], ◌∷◌, arith, All, Bytes, same, length,
  if◌then◌else◌, inl, inr, Bool-cases, find,
}
use redis_like.Ds.Double.{is_nan}
use redis_like.Ds.SkipList
use redis_like.Ds.SkipList.{
  SkipListNode, Chain, SkipList, max_level, Rolls, floor, search, link_all, random_level, max_level,
  insert_node,
}
use redis_like.Ds.SkipList.Search.{IsTower}

-- the score of the first node with the member
unfoldable pub score_in : Bytes → Chain → Option ℕ
score_in m [] = none
score_in m (n ∷ c) = if same n.member m then some n.score else score_in m c

-- no member stands twice
abbrev pub AreUnique : Chain → Type 0
AreUnique [] = Unit
AreUnique (x ∷ c) = All (λ y. same x.member y.member ≡ false) c × AreUnique c

-- There are no more levels than `kMaxLevel`; they are in order and stand on one another; level 0 has each member once, with a number for
-- its score, an address that is in use, and the score that the index gives it; the size is its length.
pub record IsValid (sl : SkipList) : Type 0 where
  pub levels : 0 < length sl.chains
  pub height : length sl.chains ≤ max_level
  pub tower : IsTower sl.chains
  pub numbers : All (λ n. is_nan n.score ≡ false) (floor sl.chains)
  pub in_use : All (λ n. n.id < sl.allocated) (floor sl.chains)
  pub unique : AreUnique (floor sl.chains)
  pub indexed : (m : Bytes) → find m sl.score_map ≡ score_in m (floor sl.chains)
  pub counted : sl.size ≡ length (floor sl.chains)

pub empty-IsValid : IsValid SkipList.empty
unfolding SkipList.empty find score_in
empty-IsValid = record {
  levels = omega arith;
  height = omega arith;
  tower = (tt, tt, tt, tt);
  numbers = tt;
  in_use = tt;
  unique = tt;
  indexed = λ m. refl;
  counted = refl;
}

-- a member that the chain has no score for is not on it
pub score_in-none :
    (m : Bytes) (c : Chain) → score_in m c ≡ none → All (λ n. same n.member m ≡ false) c
unfolding score_in
score_in-none m [] h = tt
score_in-none m (n ∷ c) h = elim (Bool-cases (same n.member m)) [
  | inl e ↦ cc (rw e at h)
  | inr e ↦ (e, score_in-none m c (rw e at h))
]
