-- ===== src/Ds/SkipList/TakenOut.antt =====
-- A node taken off its levels: the places that the search finds are right before it, and the levels
-- still stand on one another.
use mathlib.Core.Path.{subst}
use redis_like.Base.{
  suc, ◌≡◌, refl, sym, ◌∙◌, ap, Bool, true, false, List, [], ◌∷◌, ◌++◌, map, arith, All, ◌==◌,
  length, if◌then◌else◌, ◌⊎◌, inl, inr, Bool-cases,
}
use redis_like.Ds.SkipList.{SkipListNode, Chain, skip_head, unlink, unlink_all}
use redis_like.Ds.SkipList.Chains.{end_of, IsLinear, unlink-end_of}
use redis_like.Ds.SkipList.Order.{is_below, before, IsSorted, before_irrefl}
use redis_like.Ds.SkipList.Levels.{front, back, front-back}
use redis_like.Ds.SkipList.Search.{Has, IsWithin, StandsOn, IsTower, cut_place}
use redis_like.Ds.SkipList.Placed.{All-of-Has, Has-All}

module _ (n : SkipListNode) where
  -- the chain without the node
  unfoldable pub take_out : Chain → Chain
  take_out [] = []
  take_out (x ∷ c) = if x.id == n.id then c else x ∷ take_out c

  -- what has the node's address is the node
  abbrev pub IsKnown : SkipListNode → Type 0
  IsKnown x = ((x.id == n.id) ≡ false) ⊎ (x ≡ n)

  others_Known : (c : Chain) → All (λ y. (n.id == y.id) ≡ false) c → All IsKnown c
  others_Known [] h = tt
  others_Known (x ∷ c) h = (inl (ground (arith, h.0)), others_Known c h.1)

  pub Has-Known : (c : Chain) → IsLinear c → Has n c → All IsKnown c
  Has-Known [] linear h = elim h [ ]
  Has-Known (x ∷ c) linear (inl e) =
      (inr e, others_Known c (subst (λ z. All (λ y. (z.id == y.id) ≡ false) c) e linear.0))
  Has-Known (x ∷ c) linear (inr h) =
      (inl (Has-All (λ y. (x.id == y.id) ≡ false) n c h linear.0), Has-Known c linear.1 h)

  abbrev AreOther : Chain → Type 0
  AreOther = All (λ y. (y.id == n.id) ≡ false)

  take_out-AreOther : (c : Chain) → AreOther c → take_out c ≡ c
  unfolding take_out
  take_out-AreOther [] h = refl
  take_out-AreOther (x ∷ c) h = rw h.0 (ap (λ l. x ∷ l) (take_out-AreOther c h.1))

  behind_AreOther :
      (x : SkipListNode) (c : Chain)
      → All (λ y. before x y ≡ true) c
      → before x n ≡ false
      → All IsKnown c
      → AreOther c
  behind_AreOther x [] h e known = tt
  behind_AreOther x (y ∷ c) h e known =
      (elim known.0 [ inl k ↦ k | inr s ↦ cc (h.0, e, s) ], behind_AreOther x c h.1 e known.1)

  other_id : (x : SkipListNode) → IsKnown x → before x n ≡ true → (x.id == n.id) ≡ false
  other_id x (inl k) e = k
  other_id x (inr s) e =
      let no = before_irrefl x n (ap (λ y. y.score) s) (ap (λ y. y.member) s) in cc

  abbrev precedes : SkipListNode → Bool
  precedes = is_below n.score n.member

  front-skip_head-back :
      (c : Chain)
      → IsSorted c
      → All IsKnown c
      → front precedes c ++ skip_head n.id (back precedes c) ≡ take_out c
  unfolding front back skip_head take_out
  front-skip_head-back [] sorted known = refl
  front-skip_head-back (x ∷ c) sorted known = elim (Bool-cases (before x n)) [
    | inl e ↦
        rw (e, other_id x known.0 e) (ap (λ l. x ∷ l) (front-skip_head-back c sorted.1 known.1))
    | inr e ↦ rw (e, take_out-AreOther c (behind_AreOther x c sorted.0 e known.1)) refl
  ]

  unlink-take_out :
      (c : Chain)
      → IsLinear c
      → IsSorted c
      → All IsKnown c
      → unlink n.id (end_of (front precedes c)) c ≡ take_out c
  unlink-take_out c linear sorted known =
      let t = precedes in
      let whole = front-back t c in
      ap (unlink n.id (end_of (front t c))) (sym whole)
      ∙ unlink-end_of n.id (front t c) (back t c) (subst IsLinear (sym whole) linear)
      ∙ front-skip_head-back c sorted known

  abbrev AllKnown : Chain → Type 0
  AllKnown = All IsKnown

  upper_Known : (d c : Chain) → IsWithin d c → AllKnown c → AllKnown d
  upper_Known d c within known =
      All-of-Has IsKnown d (λ x h. Has-All IsKnown x c (within x h) known)

  -- `unlink_all` at the places that the search has found
  pub unlink_all-cut_place :
      (c : Chain) (cs : List Chain)
      → IsTower (c ∷ cs)
      → AllKnown c
      → unlink_all n.id (map (cut_place n.score n.member) (c ∷ cs)) ≡ map take_out (c ∷ cs)
  unfolding unlink_all
  unlink_all-cut_place c [] h known = ap (λ d. d ∷ []) (unlink-take_out c h.0 h.1 known)
  unlink_all-cut_place c (d ∷ cs) h known =
      ap (λ e. e ∷ unlink_all n.id (map (cut_place n.score n.member) (d ∷ cs)))
        (unlink-take_out c h.0 h.1 known)
      ∙ ap (λ l. take_out c ∷ l) (unlink_all-cut_place d cs h.3 (upper_Known d c h.2 known))

  pub All-take_out : (P : SkipListNode → Type 0) (c : Chain) → All P c → All P (take_out c)
  unfolding take_out
  All-take_out P [] h = tt
  All-take_out P (x ∷ c) h = elim (Bool-cases (x.id == n.id)) [
    | inl e ↦ rw e (h.1)
    | inr e ↦ rw e (h.0, All-take_out P c h.1)
  ]

  IsLinear-take_out : (c : Chain) → IsLinear c → IsLinear (take_out c)
  unfolding take_out
  IsLinear-take_out [] h = tt
  IsLinear-take_out (x ∷ c) h = elim (Bool-cases (x.id == n.id)) [
    | inl e ↦ rw e (h.1)
    | inr e ↦ rw e (All-take_out (λ y. (x.id == y.id) ≡ false) c h.0, IsLinear-take_out c h.1)
  ]

  IsSorted-take_out : (c : Chain) → IsSorted c → IsSorted (take_out c)
  unfolding take_out
  IsSorted-take_out [] h = tt
  IsSorted-take_out (x ∷ c) h = elim (Bool-cases (x.id == n.id)) [
    | inl e ↦ rw e (h.1)
    | inr e ↦ rw e (All-take_out (λ y. before x y ≡ true) c h.0, IsSorted-take_out c h.1)
  ]

  Has-take_out :
      (x : SkipListNode) (c : Chain) → (x.id == n.id) ≡ false → Has x c → Has x (take_out c)
  unfolding take_out
  Has-take_out x [] differ h = elim h [ ]
  Has-take_out x (y ∷ c) differ h = elim (Bool-cases (y.id == n.id)) [
    | inl e ↦ rw e (elim h [ inl s ↦ cc (ap (λ z. z.id == n.id) s, e, differ) | inr k ↦ k ])
    | inr e ↦ rw e (elim h [ inl s ↦ inl s | inr k ↦ inr (Has-take_out x c differ k) ])
  ]

  -- what is left has another address and was there
  take_out-Has :
      (x : SkipListNode) (c : Chain)
      → IsLinear c
      → Has x (take_out c)
      → ((x.id == n.id) ≡ false) × Has x c
  unfolding take_out
  take_out-Has x [] linear h = elim h [ ]
  take_out-Has x (y ∷ c) linear h = elim (Bool-cases (y.id == n.id)) [
    | inl e ↦
        let k = rw e at h in
        let other = Has-All (λ z. (y.id == z.id) ≡ false) x c k linear.0 in
        (ground (arith, other, e), inr k)
    | inr e ↦ elim (rw e at h) [
      | inl s ↦ (ap (λ z. z.id == n.id) (sym s) ∙ e, inl s)
      | inr k ↦ let r = take_out-Has x c linear.1 k in (r.0, inr (r.1))
    ]
  ]

  StandsOn-take_out :
      (cs : List Chain) (c : Chain)
      → IsTower cs
      → StandsOn cs c
      → StandsOn (map take_out cs) (take_out c)
  StandsOn-take_out [] c tower h = tt
  StandsOn-take_out (d ∷ cs) c tower h =
      λ x k. let r = take_out-Has x d tower.0 k in Has-take_out x c r.0 (h x r.1)

  pub IsTower-take_out : (cs : List Chain) → IsTower cs → IsTower (map take_out cs)
  IsTower-take_out [] h = tt
  IsTower-take_out (c ∷ cs) h = (
    IsLinear-take_out c h.0,
    IsSorted-take_out c h.1,
    StandsOn-take_out cs c h.3 h.2,
    IsTower-take_out cs h.3,
  )

  -- the search ends right before the node
  pub back-Has : (c : Chain) → IsSorted c → Has n c → (rest : Chain) × (back precedes c ≡ n ∷ rest)
  unfolding back
  back-Has [] sorted h = elim h [ ]
  back-Has (x ∷ c) sorted (inl s) =
      let no = before_irrefl x n (ap (λ y. y.score) s) (ap (λ y. y.member) s) in
      (c, rw no (ap (λ y. y ∷ c) s))
  back-Has (x ∷ c) sorted (inr h) =
      let yes = Has-All (λ y. before x y ≡ true) n c h sorted.0 in
      let r = back-Has c sorted.1 h in (r.0, rw yes (r.1))

  pub length-take_out : (c : Chain) → Has n c → suc (length (take_out c)) ≡ length c
  unfolding take_out
  length-take_out [] h = elim h [ ]
  length-take_out (x ∷ c) h = elim (Bool-cases (x.id == n.id)) [
    | inl e ↦ rw e refl
    | inr e ↦ rw e (elim h [
      | inl s ↦ ground (arith, ap (λ y. y.id) s, e)
      | inr k ↦ ap suc (length-take_out c k)
    ])
  ]
