-- ===== src/Ds/SkipList/Placed.antt =====
-- A new node on its levels: each chain stays in order, and the levels still stand on one another.
use mathlib.Core.Path.{subst}
use redis_like.Base.{
  ℕ, zero, suc, ◌≡◌, refl, sym, ◌∙◌, ap, true, false, List, [], ◌∷◌, ◌++◌, map, arith, All, ◌==◌,
  length, if◌then◌else◌, ◌⊎◌, inl, inr, Bool-cases,
}
use redis_like.Ds.SkipList.{SkipListNode, Chain, link, link_all, floor}
use redis_like.Ds.SkipList.Chains.{end_of, IsLinear, link-end_of}
use redis_like.Ds.SkipList.Order.{is_below, before, IsSorted, is_below-before}
use redis_like.Ds.SkipList.Levels.{front, back, front-back}
use redis_like.Ds.SkipList.Search.{Has, IsWithin, StandsOn, IsTower, cut_place}

pub All-of-Has :
    (P : SkipListNode → Type 0) (c : Chain) → ((n : SkipListNode) → Has n c → P n) → All P c
All-of-Has P [] h = tt
All-of-Has P (x ∷ c) h = (h x (inl refl), All-of-Has P c (λ n k. h n (inr k)))

pub Has-All : (P : SkipListNode → Type 0) (n : SkipListNode) (c : Chain) → Has n c → All P c → P n
Has-All P n [] h all = elim h [ ]
Has-All P n (x ∷ c) (inl e) all = rw e at (all.0)
Has-All P n (x ∷ c) (inr h) all = Has-All P n c h all.1

module _ (new : SkipListNode) where
  -- the chain with the node in its place
  unfoldable pub put_in : Chain → Chain
  put_in [] = new ∷ []
  put_in (x ∷ c) = if before x new then x ∷ put_in c else new ∷ x ∷ c

  -- the node can be told from another one and stands before it or behind it
  pub record IsApart (x : SkipListNode) : Type 0 where
    pub other : ((x.id == new.id) ≡ false) × ((new.id == x.id) ≡ false)
    pub ordered : (before x new ≡ true) ⊎ (before new x ≡ true)

  put_in-front-back :
      (c : Chain)
      → front (is_below new.score new.member) c ++ new ∷ back (is_below new.score new.member) c
        ≡ put_in c
  unfolding front back put_in
  put_in-front-back [] = refl
  put_in-front-back (x ∷ c) = elim (Bool-cases (before x new)) [
    | inl e ↦ rw e (ap (λ l. x ∷ l) (put_in-front-back c))
    | inr e ↦ rw e
  ]

  pub All-put_in : (P : SkipListNode → Type 0) (c : Chain) → P new → All P c → All P (put_in c)
  unfolding put_in
  All-put_in P [] p h = (p, tt)
  All-put_in P (x ∷ c) p h = elim (Bool-cases (before x new)) [
    | inl e ↦ rw e (h.0, All-put_in P c p h.1)
    | inr e ↦ rw e (p, h)
  ]

  pub Has-put_in : (n : SkipListNode) (c : Chain) → Has n c → Has n (put_in c)
  unfolding put_in
  Has-put_in n [] h = elim h [ ]
  Has-put_in n (x ∷ c) h = elim (Bool-cases (before x new)) [
    | inl e ↦ rw e (elim h [ inl s ↦ inl s | inr k ↦ inr (Has-put_in n c k) ])
    | inr e ↦ rw e (inr h)
  ]

  pub Has-put_in_new : (c : Chain) → Has new (put_in c)
  unfolding put_in
  Has-put_in_new [] = inl refl
  Has-put_in_new (x ∷ c) = elim (Bool-cases (before x new)) [
    | inl e ↦ rw e (inr (Has-put_in_new c))
    | inr e ↦ rw e (inl refl)
  ]

  pub put_in-Has : (n : SkipListNode) (c : Chain) → Has n (put_in c) → (new ≡ n) ⊎ Has n c
  unfolding put_in
  put_in-Has n [] (inl e) = inl e
  put_in-Has n [] (inr h) = elim h [ ]
  put_in-Has n (x ∷ c) h = elim (Bool-cases (before x new)) [
    | inl e ↦ elim (rw e at h) [
      | inl s ↦ inr (inl s)
      | inr k ↦ elim (put_in-Has n c k) [ inl s ↦ inl s | inr j ↦ inr (inr j) ]
    ]
    | inr e ↦ rw e at h
  ]

  IsWithin-put_in : (c d : Chain) → IsWithin c d → IsWithin (put_in c) (put_in d)
  IsWithin-put_in c d h n k = elim (put_in-Has n c k) [
    | inl e ↦ subst (λ m. Has m (put_in d)) e (Has-put_in_new d)
    | inr j ↦ Has-put_in n d (h n j)
  ]

  All-other : (c : Chain) → All IsApart c → All (λ y. (new.id == y.id) ≡ false) c
  All-other [] a = tt
  All-other (x ∷ c) a = (a.0.other.1, All-other c a.1)

  IsLinear-put_in : (c : Chain) → All IsApart c → IsLinear c → IsLinear (put_in c)
  unfolding put_in
  IsLinear-put_in [] a h = (tt, tt)
  IsLinear-put_in (x ∷ c) a h = elim (Bool-cases (before x new)) [
    | inl e ↦
        rw e (All-put_in (λ y. (x.id == y.id) ≡ false) c a.0.other.0 h.0, IsLinear-put_in c a.1 h.1)
    | inr e ↦ rw e ((a.0.other.1, All-other c a.1), h)
  ]

  ordered_else : (x : SkipListNode) → IsApart x → before x new ≡ false → before new x ≡ true
  ordered_else x a e = elim a.ordered [ inl h ↦ cc | inr h ↦ h ]

  carried :
      (x : SkipListNode) (c : Chain)
      → before new x ≡ true
      → All (λ y. before x y ≡ true) c
      → All (λ y. before new y ≡ true) c
  carried x [] h all = tt
  carried x (y ∷ c) h all = (is_below-before y.score y.member new x h all.0, carried x c h all.1)

  behind_new :
      (x : SkipListNode) (c : Chain)
      → IsApart x
      → before x new ≡ false
      → All (λ y. before x y ≡ true) c
      → All (λ y. before new y ≡ true) (x ∷ c)
  behind_new x c a e all = let h = ordered_else x a e in (h, carried x c h all)

  IsSorted-put_in : (c : Chain) → All IsApart c → IsSorted c → IsSorted (put_in c)
  unfolding put_in
  IsSorted-put_in [] a h = (tt, tt)
  IsSorted-put_in (x ∷ c) a h = elim (Bool-cases (before x new)) [
    | inl e ↦ rw e (All-put_in (λ y. before x y ≡ true) c e h.0, IsSorted-put_in c a.1 h.1)
    | inr e ↦ rw e (behind_new x c a.0 e h.0, h)
  ]

  -- the chains with the node on the given number of levels
  unfoldable pub put_on : ℕ → List Chain → List Chain
  put_on zero cs = cs
  put_on (suc level) [] = (new ∷ []) ∷ put_on level []
  put_on (suc level) (c ∷ cs) = put_in c ∷ put_on level cs

  StandsOn-put_on :
      (level : ℕ) (cs : List Chain) (c : Chain)
      → StandsOn cs c
      → StandsOn (put_on level cs) (put_in c)
  unfolding put_on
  StandsOn-put_on zero [] c h = tt
  StandsOn-put_on zero (d ∷ cs) c h = λ n k. Has-put_in n c (h n k)
  StandsOn-put_on (suc level) [] c h = λ n k. elim k [
    | inl e ↦ subst (λ m. Has m (put_in c)) e (Has-put_in_new c)
    | inr j ↦ elim j [ ]
  ]
  StandsOn-put_on (suc level) (d ∷ cs) c h = IsWithin-put_in d c h

  StandsOn-put_on_none : (level : ℕ) → StandsOn (put_on level []) (new ∷ [])
  unfolding put_on
  StandsOn-put_on_none zero = tt
  StandsOn-put_on_none (suc level) = λ n k. k

  abbrev Apart : Chain → Type 0
  Apart c = (n : SkipListNode) → Has n c → IsApart n

  upper-Apart : (cs : List Chain) (c : Chain) → StandsOn cs c → Apart c → Apart (floor cs)
  upper-Apart [] c h a n k = elim k [ ]
  upper-Apart (d ∷ cs) c h a n k = a n (h n k)

  pub IsTower-put_on :
      (level : ℕ) (cs : List Chain) → Apart (floor cs) → IsTower cs → IsTower (put_on level cs)
  unfolding put_on
  IsTower-put_on zero cs a h = h
  IsTower-put_on (suc level) [] a h =
      ((tt, tt), (tt, tt), StandsOn-put_on_none level, IsTower-put_on level [] a tt)
  IsTower-put_on (suc level) (c ∷ cs) a h = (
    IsLinear-put_in c (All-of-Has IsApart c a) h.0,
    IsSorted-put_in c (All-of-Has IsApart c a) h.1,
    StandsOn-put_on level cs c h.2,
    IsTower-put_on level cs (upper-Apart cs c h.2 a) h.3,
  )

  link-put_in :
      (c : Chain)
      → IsLinear c
      → link new (end_of (front (is_below new.score new.member) c)) c ≡ put_in c
  link-put_in c linear =
      let t = is_below new.score new.member in
      let whole = front-back t c in
      ap (link new (end_of (front t c))) (sym whole)
      ∙ link-end_of new (front t c) (back t c) (subst IsLinear (sym whole) linear)
      ∙ put_in-front-back c

  -- `link_all` at the places that the search has found
  pub link_all-cut_place :
      (level : ℕ) (cs : List Chain)
      → IsTower cs
      → link_all new level (map (cut_place new.score new.member) cs) ≡ put_on level cs
  unfolding link_all put_on
  link_all-cut_place zero [] h = refl
  link_all-cut_place (suc level) [] h = ap (λ l. (new ∷ []) ∷ l) (link_all-cut_place level [] tt)
  link_all-cut_place zero (c ∷ cs) h = ap (λ l. c ∷ l) (link_all-cut_place zero cs h.3)
  link_all-cut_place (suc level) (c ∷ cs) h =
      ap (λ d. d ∷ link_all new level (map (cut_place new.score new.member) cs)) (link-put_in c h.0)
      ∙ ap (λ l. put_in c ∷ l) (link_all-cut_place level cs h.3)

  pub length-put_in : (c : Chain) → length (put_in c) ≡ suc (length c)
  unfolding put_in
  length-put_in [] = refl
  length-put_in (x ∷ c) = ground (arith, length-put_in c)
