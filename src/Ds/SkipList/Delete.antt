-- ===== src/Ds/SkipList/Delete.antt =====
-- `Delete`: the search finds the node of the member, which leaves its levels, and the invariant stays.
use mathlib.Core.Path.{subst}
use redis_like.Base.{
  ℕ, ◌-◌, ◌≤◌, ◌<◌, ◌≡◌, refl, sym, ◌∙◌, ap, true, false, none, some, List, [], ◌∷◌, map, arith,
  All, Bytes, ◌==◌, same, same_iff, same_refl, length, length-map, if◌then◌else◌, inl, inr,
  Bool-cases, find, find-erase, erase,
}
use redis_like.Ds.Double.{is_nan}
use redis_like.Ds.SkipList.{
  SkipListNode, Chain, SkipList, after, search, found, unlink_all, floor, lower_level, max_level,
  delete_node,
}
use redis_like.Ds.SkipList.Chains.{end_of, IsLinear, after-end_of}
use redis_like.Ds.SkipList.Order.{is_below}
use redis_like.Ds.SkipList.Levels.{front, back, front-back}
use redis_like.Ds.SkipList.Search.{Has, IsTower, cut_place, search_lem}
use redis_like.Ds.SkipList.Placed.{Has-All}
use redis_like.Ds.SkipList.TakenOut.{
  take_out, IsKnown, Has-Known, unlink_all-cut_place, All-take_out, IsTower-take_out, back-Has,
  length-take_out,
}
use redis_like.Ds.SkipList.Valid.{score_in, AreUnique, IsValid}
use redis_like.Ds.SkipList.Trimmed.{
  IsTower-lower_level, floor-lower_level, length-lower_level, height-lower_level,
}

-- the node of a member that has a score on the chain
pub record Located (m : Bytes) (s : ℕ) (c : Chain) : Type 0 where
  pub node : SkipListNode
  pub there : Has node c
  pub its_score : node.score ≡ s
  pub its_member : node.member ≡ m

pub score_in-Located : (m : Bytes) (s : ℕ) (c : Chain) → score_in m c ≡ some s → Located m s c
unfolding score_in
score_in-Located m s [] h = cc
score_in-Located m s (x ∷ c) h = elim (Bool-cases (same x.member m)) [
  | inl e ↦ record {
    node = x;
    there = inl refl;
    its_score = cc (rw e at h);
    its_member = (same_iff x.member m).0 e;
  }
  | inr e ↦
      let k = score_in-Located m s c (rw e at h) in
      record {
        node = k.node;
        there = inr k.there;
        its_score = k.its_score;
        its_member = k.its_member;
      }
]

floor-map : (f : Chain → Chain) (cs : List Chain) → f [] ≡ [] → floor (map f cs) ≡ f (floor cs)
floor-map f [] e = sym e
floor-map f (c ∷ cs) e = refl

pub score_in-other :
    (m : Bytes) (c : Chain) → All (λ y. same m y.member ≡ false) c → score_in m c ≡ none
unfolding score_in
score_in-other m [] h = refl
score_in-other m (x ∷ c) h =
    ground (arith, h.0, score_in-other m c h.1, same_iff m x.member, same_iff x.member m)

same_id : (n : SkipListNode) → (n.id == n.id) ≡ true
same_id n = ground arith

module _ (n : SkipListNode) where
  found-cut_place :
      (c : Chain) (cs : List Chain)
      → IsTower (c ∷ cs)
      → Has n c
      → found (map (cut_place n.score n.member) (c ∷ cs)) ≡ some n
  unfolding found
  found-cut_place c cs h there =
      let t = is_below n.score n.member in
      let whole = front-back t c in
      let r = back-Has n c h.1 there in
      let behind =
        ap (after (end_of (front t c))) (sym whole)
        ∙ after-end_of (front t c) (back t c) (subst IsLinear (sym whole) h.0)
        ∙ r.1 in
      rw (behind, found) refl

  here :
      (x : SkipListNode) (m : Bytes) (c : Chain)
      → x ≡ n
      → All (λ y. same x.member y.member ≡ false) c
      → score_in m c ≡ (if same n.member m then none else score_in m (x ∷ c))
  unfolding score_in
  here x m c s u = elim (Bool-cases (same n.member m)) [
    | inl e ↦
        let k : x.member ≡ m = ap (λ y. y.member) s ∙ (same_iff n.member m).0 e in
        rw e (score_in-other m c (subst (λ j. All (λ y. same j y.member ≡ false) c) k u))
    | inr e ↦ rw (e, ap (λ y. same y.member m) s ∙ e) refl
  ]

  score_in-take_out :
      (m : Bytes) (c : Chain)
      → Has n c
      → AreUnique c
      → All (IsKnown n) c
      → score_in m (take_out n c) ≡ (if same n.member m then none else score_in m c)
  unfolding score_in take_out
  score_in-take_out m [] h u known = elim h [ ]
  score_in-take_out m (x ∷ c) h u known =
      let other : (k : Has n c) → same x.member n.member ≡ false =
        λ k. Has-All (λ y. same x.member y.member ≡ false) n c k u.0 in
      elim (Bool-cases (x.id == n.id)) [
        | inl e ↦ let s : x ≡ n = elim known.0 [ inl k ↦ cc | inr k ↦ k ] in rw e (here x m c s u.0)
        | inr e ↦ rw e (elim h [
          | inl s ↦ cc (ap (λ y. y.id == n.id) s, e, same_id n)
          | inr k ↦ ground (
            arith,
            score_in-take_out m c k u.1 known.1,
            other k,
            same_iff x.member m,
            same_iff n.member m,
            same_iff x.member n.member,
          )
        ])
      ]

  AreUnique-take_out : (c : Chain) → AreUnique c → AreUnique (take_out n c)
  unfolding take_out
  AreUnique-take_out [] u = tt
  AreUnique-take_out (x ∷ c) u = elim (Bool-cases (x.id == n.id)) [
    | inl e ↦ rw e (u.1)
    | inr e ↦
        rw e (All-take_out n (λ y. same x.member y.member ≡ false) c u.0, AreUnique-take_out c u.1)
  ]

  floor_Known : (cs : List Chain) → IsTower cs → Has n (floor cs) → All (IsKnown n) (floor cs)
  floor_Known [] tower h = elim h [ ]
  floor_Known (c ∷ cs) tower h = Has-Known n c tower.0 h

  -- the list without the node
  unfoldable pub removed : SkipList → SkipList
  removed sl = record sl {
    chains = lower_level (map (take_out n) sl.chains);
    score_map = erase n.member sl.score_map;
    size = sl.size - 1;
  }

  removed-floor : (sl : SkipList) → floor (removed sl).chains ≡ take_out n (floor sl.chains)
  unfolding removed
  removed-floor sl =
      floor-lower_level (map (take_out n) sl.chains)
      ∙ floor-map (take_out n) sl.chains (unfold take_out in refl)

  removed_at :
      (sl : SkipList) (cs : List Chain)
      → sl.chains ≡ cs
      → IsTower cs
      → Has n (floor cs)
      → delete_node n.score n.member sl ≡ (true, removed sl)
  unfolding delete_node removed
  removed_at sl [] e tower h = elim h [ ]
  removed_at sl (c ∷ cs) e tower h =
      let f : search n.score n.member sl.chains ≡ map (cut_place n.score n.member) (c ∷ cs) =
        ap (search n.score n.member) e ∙ search_lem n.score n.member (c ∷ cs) tower in
      let reached = ap found f ∙ found-cut_place c cs tower h in
      let taken =
        ap (unlink_all n.id) f
        ∙ unlink_all-cut_place n c cs tower (Has-Known n c tower.0 h)
        ∙ sym (ap (map (take_out n)) e) in
      rw (delete_node, reached, same_refl n.member, taken) refl

  -- what `Delete` does with a node of a list in order
  pub delete_node-removed :
      (sl : SkipList)
      → IsTower sl.chains
      → Has n (floor sl.chains)
      → delete_node n.score n.member sl ≡ (true, removed sl)
  delete_node-removed sl tower h = removed_at sl sl.chains refl tower h

  module _ (sl : SkipList) (valid : IsValid sl) (h : Has n (floor sl.chains)) where
    abbrev left : Chain
    left = take_out n (floor sl.chains)

    removed-IsTower : IsTower (removed sl).chains
    unfolding removed
    removed-IsTower =
        IsTower-lower_level (map (take_out n) sl.chains) (IsTower-take_out n sl.chains valid.tower)

    removed-levels : 0 < length (removed sl).chains
    unfolding removed
    removed-levels =
        length-lower_level (map (take_out n) sl.chains)
          (subst (λ k. 0 < k) (sym (length-map (take_out n) sl.chains)) valid.levels)

    removed-height : length (removed sl).chains ≤ max_level
    unfolding removed
    removed-height =
        let low = height-lower_level (map (take_out n) sl.chains) in
        omega (arith, low, length-map (take_out n) sl.chains, valid.height)

    removed-indexed : (m : Bytes) → find m (removed sl).score_map ≡ score_in m left
    unfolding removed
    removed-indexed m =
        find-erase n.member m sl.score_map
        ∙ ap (λ o. if same n.member m then none else o) (valid.indexed m)
        ∙ sym (
            score_in-take_out m (floor sl.chains) h valid.unique
              (floor_Known sl.chains valid.tower h))

    removed-counted : (removed sl).size ≡ length left
    unfolding removed
    removed-counted = omega (arith, valid.counted, length-take_out n (floor sl.chains) h)

    removed-in_use : All (λ x. x.id < (removed sl).allocated) left
    unfolding removed
    removed-in_use = All-take_out n (λ x. x.id < sl.allocated) (floor sl.chains) valid.in_use

    pub removed-IsValid : IsValid (removed sl)
    removed-IsValid =
        let fl = sym (removed-floor sl) in
        record {
          levels = removed-levels;
          height = removed-height;
          tower = removed-IsTower;
          numbers =
              subst (All (λ x. is_nan x.score ≡ false)) fl
                (All-take_out n (λ x. is_nan x.score ≡ false) (floor sl.chains) valid.numbers);
          in_use = subst (All (λ x. x.id < (removed sl).allocated)) fl removed-in_use;
          unique = subst AreUnique fl (AreUnique-take_out (floor sl.chains) valid.unique);
          indexed = λ m. removed-indexed m ∙ ap (score_in m) fl;
          counted = removed-counted ∙ ap length fl;
        }
