-- ===== src/Ds/SkipList/Levels.antt =====
-- The search on one level of the skip list, from behind nodes that are below the bound.
use redis_like.Base.{
  ℕ, ◌≡◌, refl, sym, ◌∙◌, ap, Bool, true, false, some, [], ◌∷◌, ◌++◌, append_assoc, append-nil,
  arith, All, Bytes, if◌then◌else◌, inl, inr, Bool-cases,
}
use redis_like.Ds.SkipList.{
  SkipListNode, Chain, Place, after, walk, scores_below, ties_below, search_level,
}
use redis_like.Ds.SkipList.Chains.{end_of, IsLinear, after-end_of, end_of-append}
use redis_like.Ds.SkipList.Order.{is_below, before, IsSorted, scores_below-before}

-- the nodes up to the first one that fails a test, and the others
unfoldable pub front : (SkipListNode → Bool) → Chain → Chain
front t [] = []
front t (x ∷ c) = if t x then x ∷ front t c else []

unfoldable pub back : (SkipListNode → Bool) → Chain → Chain
back t [] = []
back t (x ∷ c) = let rest = back t c in if t x then rest else x ∷ c

pub front-back : (t : SkipListNode → Bool) (c : Chain) → front t c ++ back t c ≡ c
unfolding front back
front-back t [] = refl
front-back t (x ∷ c) = elim (Bool-cases (t x)) [
  | inl e ↦ rw e (ap (λ l. x ∷ l) (front-back t c))
  | inr e ↦ rw e
]

pub All-front : (t : SkipListNode → Bool) (c : Chain) → All (λ x. t x ≡ true) (front t c)
unfolding front
All-front t [] = tt
All-front t (x ∷ c) = elim (Bool-cases (t x)) [ inl e ↦ rw e (e, All-front t c) | inr e ↦ rw e tt ]

front-append :
    (t : SkipListNode → Bool) (c d : Chain)
    → All (λ x. t x ≡ true) c
    → front t (c ++ d) ≡ c ++ front t d
unfolding front
front-append t [] d h = refl
front-append t (x ∷ c) d h = rw h.0 (ap (λ l. x ∷ l) (front-append t c d h.1))

module _ (score : ℕ) (member : Bytes) where
  abbrev Below : Chain → Type 0
  Below = All (λ x. is_below score member x ≡ true)

  -- behind a node whose score is not below the bound there is none whose score is
  none_below :
      (x : SkipListNode) (c : Chain)
      → All (λ y. before x y ≡ true) c
      → scores_below score x ≡ false
      → All (λ y. scores_below score y ≡ false) c
  none_below x [] h e = tt
  none_below x (y ∷ c) h e = (ground (arith, scores_below-before score x y), none_below x c h.1 e)

  -- the second loop alone
  walk-ties_below :
      (c d : Chain)
      → All (λ y. scores_below score y ≡ false) d
      → walk (ties_below score member) (end_of c) d ≡ end_of (c ++ front (is_below score member) d)
  unfolding walk front is_below
  walk-ties_below c [] h = rw append-nil
  walk-ties_below c (n ∷ d) h = elim (Bool-cases (ties_below score member n)) [
    | inl e ↦
        let next = walk-ties_below (c ++ n ∷ []) d h.1 in
        rw (e, h.0) (rw (end_of-append n c, append_assoc) at next)
    | inr e ↦ rw (e, h.0) (rw append-nil)
  ]

  abbrev second_walk : Chain → Place → Place
  second_walk chain place = walk (ties_below score member) place (after place chain)

  stays :
      (place : Place) (n : SkipListNode) (d : Chain)
      → scores_below score n ≡ false
      → walk (scores_below score) place (n ∷ d) ≡ place
  unfolding walk
  stays place n d e = rw e

  moves :
      (place : Place) (n : SkipListNode) (d : Chain)
      → scores_below score n ≡ true
      → walk (scores_below score) place (n ∷ d) ≡ walk (scores_below score) (some n) d
  unfolding walk
  moves place n d e = rw e

  front-scores_below :
      (n : SkipListNode) (d : Chain)
      → scores_below score n ≡ true
      → front (is_below score member) (n ∷ d) ≡ n ∷ front (is_below score member) d
  unfolding front is_below
  front-scores_below n d e = rw e

  two_walks :
      (c d : Chain)
      → IsLinear (c ++ d)
      → IsSorted d
      → second_walk (c ++ d) (walk (scores_below score) (end_of c) d)
        ≡ end_of (c ++ front (is_below score member) d)
  two_walks c [] linear sorted =
      unfold walk front in
      ap (walk (ties_below score member) (end_of c)) (after-end_of c [] linear)
      ∙ ap end_of (sym (append-nil c))
  two_walks c (n ∷ d) linear sorted = elim (Bool-cases (scores_below score n)) [
    | inl e ↦
        let next = two_walks (c ++ n ∷ []) d (rw append_assoc linear) sorted.1 in
        ap (second_walk (c ++ n ∷ d)) (moves (end_of c) n d e)
        ∙ (rw (end_of-append n c, append_assoc, append_assoc) at next)
        ∙ ap (λ l. end_of (c ++ l)) (sym (front-scores_below n d e))
    | inr e ↦
        ap (second_walk (c ++ n ∷ d)) (stays (end_of c) n d e)
        ∙ ap (walk (ties_below score member) (end_of c)) (after-end_of c (n ∷ d) linear)
        ∙ walk-ties_below c (n ∷ d) (e, none_below n d sorted.0 e)
  ]

  -- a level that is entered behind nodes that are below the bound
  pub search_level-end_of :
      (c d : Chain)
      → IsLinear (c ++ d)
      → IsSorted d
      → Below c
      → search_level score member (end_of c) (c ++ d)
        ≡ end_of (front (is_below score member) (c ++ d))
  unfolding search_level
  search_level-end_of c d linear sorted below =
      ap (λ l. second_walk (c ++ d) (walk (scores_below score) (end_of c) l))
        (after-end_of c d linear)
      ∙ two_walks c d linear sorted
      ∙ ap end_of (sym (front-append (is_below score member) c d below))
