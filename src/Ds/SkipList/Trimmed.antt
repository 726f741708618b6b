-- ===== src/Ds/SkipList/Trimmed.antt =====
-- `level_` lowered past the levels that are empty.
use redis_like.Base.{
  ◌&&◌, ◌≤◌, ◌<◌, ◌≡◌, refl, List, [], ◌∷◌, arith, length, inl, inr, Bool-cases, is_empty,
}
use redis_like.Ds.SkipList.{Chain, floor, trim, lower_level}
use redis_like.Ds.SkipList.Search.{StandsOn, IsTower}

StandsOn-trim : (cs : List Chain) (c : Chain) → StandsOn cs c → StandsOn (trim cs) c
unfolding trim
StandsOn-trim [] c h = tt
StandsOn-trim (d ∷ cs) c h = elim (Bool-cases (is_empty (trim cs) && is_empty d)) [
  | inl e ↦ rw e tt
  | inr e ↦ rw e h
]

IsTower-trim : (cs : List Chain) → IsTower cs → IsTower (trim cs)
unfolding trim
IsTower-trim [] h = tt
IsTower-trim (c ∷ cs) h = elim (Bool-cases (is_empty (trim cs) && is_empty c)) [
  | inl e ↦ rw e tt
  | inr e ↦ rw e (h.0, h.1, StandsOn-trim cs c h.2, IsTower-trim cs h.3)
]

pub IsTower-lower_level : (cs : List Chain) → IsTower cs → IsTower (lower_level cs)
unfolding lower_level
IsTower-lower_level [] h = tt
IsTower-lower_level (c ∷ cs) h = (h.0, h.1, StandsOn-trim cs c h.2, IsTower-trim cs h.3)

pub floor-lower_level : (cs : List Chain) → floor (lower_level cs) ≡ floor cs
unfolding lower_level
floor-lower_level [] = refl
floor-lower_level (c ∷ cs) = refl

pub length-lower_level : (cs : List Chain) → 0 < length cs → 0 < length (lower_level cs)
unfolding lower_level
length-lower_level [] h = h
length-lower_level (c ∷ cs) h = omega arith

length-trim : (cs : List Chain) → length (trim cs) ≤ length cs
unfolding trim
length-trim [] = omega arith
length-trim (c ∷ cs) = ground (arith, length-trim cs)

pub height-lower_level : (cs : List Chain) → length (lower_level cs) ≤ length cs
unfolding lower_level
height-lower_level [] = omega arith
height-lower_level (c ∷ cs) = omega (arith, length-trim cs)
