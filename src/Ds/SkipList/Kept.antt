-- ===== src/Ds/SkipList/Kept.antt =====
-- `Insert` and `Delete` as they are called: the invariant stays, and level 0 gains or loses the member.
use redis_like.Base.{
  ℕ, ◌+◌, ◌<◌, ◌≡◌, [], ◌∷◌, length, Option-cases, refl, sym, ◌∙◌, ap, Bool, true, false, Option,
  none, some, Bytes, same, same_iff, same_refl, if◌then◌else◌, inl, inr, Bool-cases, find, has,
  has-find, find-put, find-erase, arith,
}
use redis_like.Ds.Double.{is_nan, eq_double}
use redis_like.Ds.SkipList.{
  SkipListNode, SkipList, Chain, Rolls, floor, ground_chain, delete, delete_node, insert,
  insert_node,
}
use redis_like.Ds.SkipList.Search.{Has}
use redis_like.Ds.SkipList.Valid.{score_in, IsValid}
use redis_like.Ds.SkipList.Insert.{insert_node-IsValid}
use redis_like.Ds.SkipList.Delete.{
  Located, score_in-Located, removed, delete_node-removed, removed-IsValid,
}

module _ (m : Bytes) (sl : SkipList) where
  pub delete-absent : find m sl.score_map ≡ none → delete m sl ≡ (false, sl)
  unfolding delete
  delete-absent e = rw (delete, e) refl

  delete-found : (s : ℕ) → find m sl.score_map ≡ some s → delete m sl ≡ delete_node s m sl
  unfolding delete
  delete-found s e = rw (delete, e) refl

  pub located : (s : ℕ) → IsValid sl → find m sl.score_map ≡ some s → Located m s (floor sl.chains)
  located s valid e = score_in-Located m s (floor sl.chains) (sym (valid.indexed m) ∙ e)

  pub delete-present :
      (s : ℕ) (valid : IsValid sl) (e : find m sl.score_map ≡ some s)
      → delete m sl ≡ (true, removed (located s valid e).node sl)
  delete-present s valid e =
      let l = located s valid e in
      delete-found s e
      ∙ ap (λ t. delete_node t m sl) (sym l.its_score)
      ∙ ap (λ k. delete_node l.node.score k sl) (sym l.its_member)
      ∙ delete_node-removed l.node sl valid.tower l.there

  delete-IsValid_at :
      (o : Option ℕ) → find m sl.score_map ≡ o → IsValid sl → IsValid (delete m sl).1
  delete-IsValid_at none e valid = rw (delete-absent e) valid
  delete-IsValid_at (some s) e valid =
      let l = located s valid e in
      rw (delete-present s valid e) (removed-IsValid l.node sl valid l.there)

  removed-score_map :
      (s : ℕ) (valid : IsValid sl) (e : find m sl.score_map ≡ some s) (k : Bytes)
      → find k (removed (located s valid e).node sl).score_map
        ≡ (if same m k then none else find k sl.score_map)
  unfolding removed
  removed-score_map s valid e k =
      let l = located s valid e in
      find-erase l.node.member k sl.score_map
      ∙ ap (λ j. if same j k then none else find k sl.score_map) l.its_member

  delete-score_map_at :
      (o : Option ℕ) (k : Bytes)
      → find m sl.score_map ≡ o
      → IsValid sl
      → find k (delete m sl).1.score_map ≡ (if same m k then none else find k sl.score_map)
  delete-score_map_at none k e valid = elim (Bool-cases (same m k)) [
    | inl t ↦ rw (delete-absent e, t) (ap (λ j. find j sl.score_map) (sym ((same_iff m k).0 t)) ∙ e)
    | inr t ↦ rw (delete-absent e, t) refl
  ]
  delete-score_map_at (some s) k e valid =
      rw (delete-present s valid e) (removed-score_map s valid e k)

  delete-reply_at :
      (o : Option ℕ) → find m sl.score_map ≡ o → IsValid sl → (delete m sl).0 ≡ has m sl.score_map
  delete-reply_at none e valid = rw (delete-absent e, has-find m sl.score_map, e) refl
  delete-reply_at (some s) e valid = rw (delete-present s valid e, has-find m sl.score_map, e) refl

-- the invariant alone
pub delete-IsValid : (m : Bytes) (sl : SkipList) → IsValid sl → IsValid (delete m sl).1
delete-IsValid m sl valid = delete-IsValid_at m sl (find m sl.score_map) refl valid

delete-score_map :
    (m k : Bytes) (sl : SkipList)
    → IsValid sl
    → find k (delete m sl).1.score_map ≡ (if same m k then none else find k sl.score_map)
delete-score_map m k sl valid = delete-score_map_at m sl (find m sl.score_map) k refl valid

-- `Delete` takes what it says it has taken
length-Has : (n : SkipListNode) (c : Chain) → Has n c → 0 < length c
length-Has n [] h = elim h [ ]
length-Has n (x ∷ c) h = omega arith

size-removed :
    (n : SkipListNode) (sl : SkipList)
    → IsValid sl
    → Has n (ground_chain sl)
    → (removed n sl).size + 1 ≡ sl.size
unfolding removed
size-removed n sl valid h = omega (arith, length-Has n (ground_chain sl) h, valid.counted)

pub size-delete :
    (m : Bytes) (sl : SkipList)
    → IsValid sl
    → (delete m sl).1.size + (if (delete m sl).0 then 1 else 0) ≡ sl.size
size-delete m sl valid = elim (Option-cases (find m sl.score_map)) [
  | inl e ↦ rw (delete-absent m sl e) (omega arith)
  | inr (s, e) ↦
      rw (delete-present m sl s valid e)
        (let l = located m sl s valid e in size-removed l.node sl valid l.there)
]

-- In a valid skip list, `Delete` says whether the member was there, and takes its node off level 0,
-- where each other member keeps its score; the list stays valid, and is shorter by one if the member
-- was there.
pub delete_lem :
    (m k : Bytes) (sl : SkipList)
    → IsValid sl
    → IsValid (delete m sl).1
      × ((delete m sl).0 ≡ has m sl.score_map)
      × (score_in k (ground_chain (delete m sl).1)
          ≡ (if same m k then none else score_in k (ground_chain sl)))
      × ((delete m sl).1.size + (if (delete m sl).0 then 1 else 0) ≡ sl.size)
delete_lem m k sl valid = (
  delete-IsValid m sl valid,
  delete-reply_at m sl (find m sl.score_map) refl valid,
  sym ((delete-IsValid m sl valid).indexed k)
      ∙ delete-score_map m k sl valid
      ∙ ap (λ o. if same m k then none else o) (valid.indexed k),
  size-delete m sl valid,
)

-- a score that is there and equals a number
unfoldable pub is_score : ℕ → Option ℕ → Bool
is_score score none = false
is_score score (some s) = eq_double s score

module _ (rolls : Rolls) (score : ℕ) (m : Bytes) (sl : SkipList) where
  pub insert-new :
      find m sl.score_map ≡ none → insert rolls score m sl ≡ (true, insert_node rolls score m sl)
  unfolding insert
  insert-new e = rw (insert, e) refl

  insert-equal :
      (old : ℕ)
      → find m sl.score_map ≡ some old
      → eq_double old score ≡ true
      → insert rolls score m sl ≡ (false, sl)
  unfolding insert
  insert-equal old e t = rw (insert, e, t) refl

  insert-moved :
      (old : ℕ)
      → find m sl.score_map ≡ some old
      → eq_double old score ≡ false
      → insert rolls score m sl ≡ (true, insert_node rolls score m (delete m sl).1)
  unfolding insert
  insert-moved old e t = rw (insert, e, t) refl

  module _ (valid : IsValid sl) (number : is_nan score ≡ false) where
    gone : find m (delete m sl).1.score_map ≡ none
    gone = delete-score_map m m sl valid ∙ rw (same_refl m) refl

    insert-IsValid_at :
        (o : Option ℕ) → find m sl.score_map ≡ o → IsValid (insert rolls score m sl).1
    insert-IsValid_at none e =
        rw (insert-new e) (insert_node-IsValid rolls score m sl valid number e)
    insert-IsValid_at (some old) e = elim (Bool-cases (eq_double old score)) [
      | inl t ↦ rw (insert-equal old e t) valid
      | inr t ↦ rw (insert-moved old e t) (
          insert_node-IsValid rolls score m (delete m sl).1 (delete-IsValid m sl valid) number gone)
    ]

    inserted : (sl' : SkipList) → find m (insert_node rolls score m sl').score_map ≡ some score
    unfolding insert_node
    inserted sl' = find-put m m score sl'.score_map ∙ rw (same_refl m) refl

    equal_self : eq_double score score ≡ true
    unfolding eq_double
    equal_self = rw number (ground arith)

    insert-is_score_at :
        (o : Option ℕ)
        → find m sl.score_map ≡ o
        → is_score score (find m (insert rolls score m sl).1.score_map) ≡ true
    unfolding is_score
    insert-is_score_at none e = rw (insert-new e, inserted sl) equal_self
    insert-is_score_at (some old) e = elim (Bool-cases (eq_double old score)) [
      | inl t ↦ rw (insert-equal old e t, e) t
      | inr t ↦ rw (insert-moved old e t, inserted (delete m sl).1) equal_self
    ]

    kept :
        (sl' : SkipList) (k : Bytes)
        → same m k ≡ false
        → find k (insert_node rolls score m sl').score_map ≡ find k sl'.score_map
    unfolding insert_node
    kept sl' k differ = find-put m k score sl'.score_map ∙ rw differ refl

    insert-other_at :
        (o : Option ℕ) (k : Bytes)
        → find m sl.score_map ≡ o
        → same m k ≡ false
        → find k (insert rolls score m sl).1.score_map ≡ find k sl.score_map
    insert-other_at none k e differ = rw (insert-new e) (kept sl k differ)
    insert-other_at (some old) k e differ = elim (Bool-cases (eq_double old score)) [
      | inl t ↦ rw (insert-equal old e t) refl
      | inr t ↦
          rw (insert-moved old e t)
            (kept (delete m sl).1 k differ ∙ delete-score_map m k sl valid ∙ rw differ refl)
    ]

-- the invariant alone
pub insert-IsValid :
    (rolls : Rolls) (score : ℕ) (m : Bytes) (sl : SkipList)
    → IsValid sl
    → is_nan score ≡ false
    → IsValid (insert rolls score m sl).1
insert-IsValid rolls score m sl valid number =
    insert-IsValid_at rolls score m sl valid number (find m sl.score_map) refl

-- `Insert` of a score that is a number keeps a valid skip list valid; the member then stands on level 0
-- with a score that equals the given one, and a member with another text has the score it had.
pub insert_lem :
    (rolls : Rolls) (score : ℕ) (m k : Bytes) (sl : SkipList)
    → IsValid sl
    → is_nan score ≡ false
    → same m k ≡ false
    → IsValid (insert rolls score m sl).1
      × (is_score score (score_in m (ground_chain (insert rolls score m sl).1)) ≡ true)
      × (score_in k (ground_chain (insert rolls score m sl).1) ≡ score_in k (ground_chain sl))
insert_lem rolls score m k sl valid number differ =
    let after = insert-IsValid rolls score m sl valid number in
    let o = find m sl.score_map in
    (
      after,
      ap (is_score score) (sym (after.indexed m))
          ∙ insert-is_score_at rolls score m sl valid number o refl,
      sym (after.indexed k)
          ∙ insert-other_at rolls score m sl valid number o k refl differ
          ∙ valid.indexed k,
    )
