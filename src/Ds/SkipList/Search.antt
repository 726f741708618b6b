-- ===== src/Ds/SkipList/Search.antt =====
-- The search of the skip list: on each level it ends behind the nodes that are below the score and the
-- member, wherever the level above has left off.
use mathlib.Core.Path.{subst}
use redis_like.Base.{
  ℕ, ◌≡◌, refl, sym, ◌∙◌, ap, Bool, true, List, [], ◌∷◌, ◌++◌, map, All, Bytes, ◌⊎◌, inl, inr,
}
use redis_like.Ds.SkipList.{SkipListNode, Chain, Place, lowest, search_level, search}
use redis_like.Ds.SkipList.Chains.{last_node, end_of, IsLinear, end_of-append}
use redis_like.Ds.SkipList.Order.{is_below, before, IsSorted, is_below-before}
use redis_like.Ds.SkipList.Levels.{front, back, front-back, All-front, search_level-end_of}

-- the node is one of the chain
abbrev pub Has : SkipListNode → Chain → Type 0
Has n [] = ⊥
Has n (x ∷ c) = (x ≡ n) ⊎ Has n c

abbrev pub IsWithin : Chain → Chain → Type 0
IsWithin c d = (n : SkipListNode) → Has n c → Has n d

-- what stands up to a node of a sorted chain, if the node is below a bound
record CutAt (score : ℕ) (member : Bytes) (n : SkipListNode) (c : Chain) : Type 0 where
  left : Chain
  right : Chain
  cut : c ≡ (left ++ n ∷ []) ++ right
  below : All (λ x. is_below score member x ≡ true) (left ++ n ∷ [])

Has-before :
    (score : ℕ) (member : Bytes) (x n : SkipListNode) (c : Chain)
    → All (λ y. before x y ≡ true) c
    → Has n c
    → is_below score member n ≡ true
    → is_below score member x ≡ true
Has-before score member x n [] all h e = elim h [ ]
Has-before score member x n (y ∷ c) all (inl same) e =
    is_below-before score member x y all.0 (ap (is_below score member) same ∙ e)
Has-before score member x n (y ∷ c) all (inr there) e = Has-before score member x n c all.1 there e

Has-CutAt :
    (score : ℕ) (member : Bytes) (n : SkipListNode) (c : Chain)
    → IsSorted c
    → Has n c
    → is_below score member n ≡ true
    → CutAt score member n c
Has-CutAt score member n [] sorted h e = elim h [ ]
Has-CutAt score member n (x ∷ c) sorted (inl same) e = record {
  left = [];
  right = c;
  cut = ap (λ y. y ∷ c) same;
  below = (e, tt);
}
Has-CutAt score member n (x ∷ c) sorted (inr there) e =
    let k = Has-CutAt score member n c sorted.1 there e in
    record {
      left = x ∷ k.left;
      right = k.right;
      cut = ap (λ l. x ∷ l) k.cut;
      below = (Has-before score member x n c sorted.0 there e, k.below);
    }

Has-last_node : (x : SkipListNode) (c : Chain) → Has (last_node x c) (x ∷ c)
Has-last_node x [] = inl refl
Has-last_node x (y ∷ c) = inr (Has-last_node y c)

Has-append : (n : SkipListNode) (c d : Chain) → Has n c → Has n (c ++ d)
Has-append n [] d h = elim h [ ]
Has-append n (x ∷ c) d (inl same) = inl same
Has-append n (x ∷ c) d (inr there) = inr (Has-append n c d there)

All-Has :
    (t : SkipListNode → Bool) (n : SkipListNode) (c : Chain)
    → Has n c
    → All (λ x. t x ≡ true) c
    → t n ≡ true
All-Has t n [] h all = elim h [ ]
All-Has t n (x ∷ c) (inl same) all = ap t (sym same) ∙ all.0
All-Has t n (x ∷ c) (inr there) all = All-Has t n c there all.1

IsSorted-right : (c d : Chain) → IsSorted (c ++ d) → IsSorted d
IsSorted-right [] d h = h
IsSorted-right (x ∷ c) d h = IsSorted-right c d h.1

-- The chains of a list: no address stands twice on a level, each level is in order, and the nodes of
-- a level stand on the level below it.
abbrev pub StandsOn : List Chain → Chain → Type 0
StandsOn [] c = Unit
StandsOn (d ∷ cs) c = IsWithin d c

abbrev pub IsTower : List Chain → Type 0
IsTower [] = Unit
IsTower (c ∷ cs) = IsLinear c × IsSorted c × StandsOn cs c × IsTower cs

module _ (score : ℕ) (member : Bytes) where
  abbrev pub bound : SkipListNode → Bool
  bound = is_below score member

  -- the place on each level, whichever node the level above has given
  abbrev pub cut_place : Chain → Place × Chain
  cut_place c = (end_of (front bound c), c)

  search_level-front :
      (upper c : Chain)
      → IsLinear c
      → IsSorted c
      → IsWithin upper c
      → search_level score member (end_of (front bound upper)) c ≡ end_of (front bound c)
  search_level-front upper c linear sorted within =
      go (front bound upper) (All-front bound upper) (λ n h.
        within n
          (rw (front-back bound upper) at (Has-append n (front bound upper) (back bound upper) h)))
    where
      go :
          (f : Chain)
          → All (λ x. bound x ≡ true) f
          → IsWithin f c
          → search_level score member (end_of f) c ≡ end_of (front bound c)
      go [] below inside = search_level-end_of score member [] c linear sorted tt
      go (x ∷ f) below inside =
          let n = last_node x f in
          let there = Has-last_node x f in
          let k =
            Has-CutAt score member n c sorted (inside n there)
              (All-Has bound n (x ∷ f) there below) in
          let left = k.left ++ n ∷ [] in
          let reached =
            search_level-end_of score member left k.right (subst IsLinear k.cut linear)
              (IsSorted-right left k.right (subst IsSorted k.cut sorted)) k.below in
          ap (λ p. search_level score member p c) (sym (end_of-append n k.left))
          ∙ ap (search_level score member (end_of left)) k.cut
          ∙ reached
          ∙ ap (λ l. end_of (front bound l)) (sym k.cut)

  -- `update[i]` is the last node on level i that is below the bound
  pub search_lem : (cs : List Chain) → IsTower cs → search score member cs ≡ map cut_place cs
  unfolding search
  search_lem [] h = refl
  search_lem (c ∷ []) h =
      let top = search_level-front [] c h.0 h.1 (λ n e. elim e [ ]) in
      unfold front in ap (λ p. (p, c) ∷ []) top
  search_lem (c ∷ d ∷ cs) h =
      let higher = search_lem (d ∷ cs) h.3 in
      ap (λ us. (search_level score member (lowest us) c, c) ∷ us) higher
      ∙ ap (λ p. (p, c) ∷ map cut_place (d ∷ cs)) (search_level-front d c h.0 h.1 h.2)
