-- ===== src/Ds/SkipList/Insert.antt =====
-- `Insert` of a member that is not in the list.
use mathlib.Core.Path.{subst}
use redis_like.Base.{
  ℕ, zero, suc, ◌-◌, ◌≤◌, ◌<◌, ◌≡◌, refl, sym, ◌∙◌, ap, false, none, some, List, [], ◌∷◌, arith,
  All, Bytes, same, same_iff, length, if◌then◌else◌, inl, inr, Bool-cases, find, find-put, put,
}
use redis_like.Ds.Double.{is_nan}
use redis_like.Ds.SkipList.{
  SkipListNode, Chain, SkipList, Rolls, link_all, random_level, max_level, insert_node, floor,
}
use redis_like.Ds.SkipList.Order.{before, before_total}
use redis_like.Ds.SkipList.Search.{Has, IsTower, search_lem}
use redis_like.Ds.SkipList.Placed.{
  Has-All, put_in, IsApart, All-put_in, put_on, IsTower-put_on, link_all-cut_place, length-put_in,
}
use redis_like.Ds.SkipList.Valid.{score_in, AreUnique, IsValid, score_in-none}

score_in-put_in :
    (new : SkipListNode) (m : Bytes) (c : Chain)
    → All (λ n. same n.member new.member ≡ false) c
    → score_in m (put_in new c) ≡ (if same new.member m then some new.score else score_in m c)
unfolding score_in put_in
score_in-put_in new m [] h = refl
score_in-put_in new m (x ∷ c) h = ground (
  arith,
  score_in-put_in new m c h.1,
  same_iff new.member m,
  same_iff x.member m,
  same_iff x.member new.member,
)

AreUnique-put_in :
    (new : SkipListNode) (c : Chain)
    → All (λ n. same n.member new.member ≡ false) c
    → AreUnique c
    → AreUnique (put_in new c)
unfolding put_in
AreUnique-put_in new [] h u = (tt, tt)
AreUnique-put_in new (x ∷ c) h u = elim (Bool-cases (before x new)) [
  | inl e ↦ rw e (
    All-put_in new (λ y. same x.member y.member ≡ false) c h.0 u.0,
    AreUnique-put_in new c h.1 u.1,
  )
  | inr e ↦ rw e (turned new (x ∷ c) h, u)
]
  where
    turned :
        (new : SkipListNode) (c : Chain)
        → All (λ n. same n.member new.member ≡ false) c
        → All (λ n. same new.member n.member ≡ false) c
    turned new [] h = tt
    turned new (x ∷ c) h = (
      ground (arith, same_iff x.member new.member, same_iff new.member x.member),
      turned new c h.1,
    )

apart :
    (new x : SkipListNode)
    → x.id < new.id
    → is_nan x.score ≡ false
    → is_nan new.score ≡ false
    → same x.member new.member ≡ false
    → IsApart new x
apart new x lt p q differ = record {
  other = (ground arith, ground arith);
  ordered = elim (Bool-cases (before x new)) [
    | inl e ↦ inl e
    | inr e ↦ inr (before_total x new p q differ e)
  ];
}

-- `RandomLevel` gives at most one level more than the rounds it has
pub random_level-bound :
    (rounds : ℕ) (rolls : Rolls) (k : ℕ) → random_level rounds rolls k ≤ suc rounds
unfolding random_level
random_level-bound zero rolls k = omega arith
random_level-bound (suc rounds) rolls k = ground (arith, random_level-bound rounds rolls (suc k))

pub random_level_pos : (rounds : ℕ) (rolls : Rolls) (k : ℕ) → 0 < random_level rounds rolls k
unfolding random_level
random_level_pos zero rolls k = omega arith
random_level_pos (suc rounds) rolls k = ground arith

floor-put_on :
    (new : SkipListNode) (level : ℕ) (cs : List Chain)
    → 0 < level
    → floor (put_on new level cs) ≡ put_in new (floor cs)
unfolding put_on put_in
floor-put_on new zero cs h = ground arith
floor-put_on new (suc level) [] h = refl
floor-put_on new (suc level) (c ∷ cs) h = refl

height-put_on :
    (new : SkipListNode) (level k : ℕ) (cs : List Chain)
    → level ≤ k
    → length cs ≤ k
    → length (put_on new level cs) ≤ k
unfolding put_on
height-put_on new zero k cs h j = j
height-put_on new (suc level) zero cs h j = omega (arith, h)
height-put_on new (suc level) (suc k) [] h j =
    omega (arith, height-put_on new level k [] (omega (arith, h)) (omega arith))
height-put_on new (suc level) (suc k) (c ∷ cs) h j =
    omega (arith, height-put_on new level k cs (omega (arith, h)) (omega (arith, j)))

later : (k : ℕ) (c : Chain) → All (λ n. n.id < k) c → All (λ n. n.id < suc k) c
later k [] h = tt
later k (x ∷ c) h = (omega (arith, h.0), later k c h.1)

length-put_on :
    (new : SkipListNode) (level : ℕ) (cs : List Chain) → length cs ≤ length (put_on new level cs)
unfolding put_on
length-put_on new zero cs = omega arith
length-put_on new (suc level) [] = omega arith
length-put_on new (suc level) (c ∷ cs) = omega (arith, length-put_on new level cs)

module _ (rolls : Rolls) (score : ℕ) (member : Bytes) (sl : SkipList) where
  abbrev pub fresh : SkipListNode
  fresh = record { id = sl.allocated; score = score; member = member }

  abbrev level : ℕ
  level = random_level (max_level - 1) rolls 0

  abbrev after_insert : SkipList
  after_insert = insert_node rolls score member sl

  insert_node-chains : IsTower sl.chains → after_insert.chains ≡ put_on fresh level sl.chains
  unfolding insert_node
  insert_node-chains h =
      ap (link_all fresh level) (search_lem score member sl.chains h)
      ∙ link_all-cut_place fresh level sl.chains h

  pub insert_node-floor :
      IsTower sl.chains → floor after_insert.chains ≡ put_in fresh (floor sl.chains)
  insert_node-floor h =
      ap floor (insert_node-chains h)
      ∙ floor-put_on fresh level sl.chains (random_level_pos (max_level - 1) rolls 0)

  module _ (valid : IsValid sl) (number : is_nan score ≡ false)
      (absent : find member sl.score_map ≡ none) where
    others : All (λ n. same n.member member ≡ false) (floor sl.chains)
    others = score_in-none member (floor sl.chains) (sym (valid.indexed member) ∙ absent)

    fresh-IsApart : (n : SkipListNode) → Has n (floor sl.chains) → IsApart fresh n
    fresh-IsApart n k =
        apart fresh n (Has-All (λ n. n.id < sl.allocated) n (floor sl.chains) k valid.in_use)
          (Has-All (λ n. is_nan n.score ≡ false) n (floor sl.chains) k valid.numbers) number
          (Has-All (λ n. same n.member member ≡ false) n (floor sl.chains) k others)

    insert_node-indexed :
        (m : Bytes)
        → find m (put member score sl.score_map) ≡ score_in m (put_in fresh (floor sl.chains))
    insert_node-indexed m =
        find-put member m score sl.score_map
        ∙ ap (λ o. if same member m then some score else o) (valid.indexed m)
        ∙ sym (score_in-put_in fresh m (floor sl.chains) others)

    abbrev floor_after : Chain
    floor_after = put_in fresh (floor sl.chains)

    in_use_fresh : All (λ n. n.id < after_insert.allocated) floor_after
    unfolding insert_node
    in_use_fresh =
        All-put_in fresh (λ n. n.id < suc sl.allocated) (floor sl.chains) (omega arith)
          (later sl.allocated (floor sl.chains) valid.in_use)

    indexed_after : (m : Bytes) → find m after_insert.score_map ≡ score_in m floor_after
    unfolding insert_node
    indexed_after m = insert_node-indexed m

    counted_after : after_insert.size ≡ length floor_after
    unfolding insert_node
    counted_after = ap suc valid.counted ∙ sym (length-put_in fresh (floor sl.chains))

    -- The list is still in order, and is as it was but for the new node.
    pub insert_node-IsValid : IsValid after_insert
    insert_node-IsValid =
        let fl = insert_node-floor valid.tower in
        let chains = insert_node-chains valid.tower in
        record {
          levels =
              subst (λ cs. 0 < length cs) (sym chains)
                (omega (arith, valid.levels, length-put_on fresh level sl.chains));
          height =
              subst (λ cs. length cs ≤ max_level) (sym chains)
                (height-put_on fresh level max_level sl.chains
                  (random_level-bound (max_level - 1) rolls 0) valid.height);
          tower =
              subst IsTower (sym chains)
                (IsTower-put_on fresh level sl.chains fresh-IsApart valid.tower);
          numbers = subst (All (λ n. is_nan n.score ≡ false)) (sym fl) (
              All-put_in fresh (λ n. is_nan n.score ≡ false) (floor sl.chains) number
                valid.numbers);
          in_use = subst (All (λ n. n.id < after_insert.allocated)) (sym fl) in_use_fresh;
          unique =
              subst AreUnique (sym fl)
                (AreUnique-put_in fresh (floor sl.chains) others valid.unique);
          indexed = λ m. indexed_after m ∙ sym (ap (score_in m) fl);
          counted = counted_after ∙ sym (ap length fl);
        }
