-- ===== src/Ds/SkipList/Chains.antt =====
-- A chain of a skip list cut at a place: the place is the last node of the front part.
use redis_like.Base.{ℕ, ◌≡◌, refl, ap, true, false, none, some, [], ◌∷◌, ◌++◌, arith, All, ◌==◌}
use redis_like.Ds.SkipList.{SkipListNode, Chain, Place, behind, after, link, skip_head, unlink}

abbrev pub last_node : SkipListNode → Chain → SkipListNode
last_node x [] = x
last_node x (y ∷ c) = last_node y c

-- the place at the end of the front part
abbrev pub end_of : Chain → Place
end_of [] = none
end_of (x ∷ c) = some (last_node x c)

-- no address stands twice
abbrev pub IsLinear : Chain → Type 0
IsLinear [] = Unit
IsLinear (x ∷ c) = All (λ y. (x.id == y.id) ≡ false) c × IsLinear c

All-last_node :
    (P : SkipListNode → Type 0) (x : SkipListNode) (c d : Chain)
    → P x
    → All P (c ++ d)
    → P (last_node x c)
All-last_node P x [] d p h = p
All-last_node P x (y ∷ c) d p h = All-last_node P y c d h.0 h.1

other_id :
    (x y : SkipListNode) (c d : Chain)
    → All (λ z. (x.id == z.id) ≡ false) (y ∷ (c ++ d))
    → (x.id == (last_node y c).id) ≡ false
other_id x y c d h = All-last_node (λ z. (x.id == z.id) ≡ false) y c d h.0 h.1

same_id : (x : SkipListNode) → (x.id == x.id) ≡ true
same_id x = ground arith

behind-last_node :
    (x : SkipListNode) (c d : Chain)
    → IsLinear (x ∷ (c ++ d))
    → behind (last_node x c).id (x ∷ (c ++ d)) ≡ d
unfolding behind
behind-last_node x [] d h = rw (same_id x)
behind-last_node x (y ∷ c) d h = rw (other_id x y c d h.0) (behind-last_node y c d h.1)

-- the part behind the place
pub after-end_of : (c d : Chain) → IsLinear (c ++ d) → after (end_of c) (c ++ d) ≡ d
unfolding after
after-end_of [] d h = refl
after-end_of (x ∷ c) d h = behind-last_node x c d h

link-last_node :
    (new x : SkipListNode) (c d : Chain)
    → IsLinear (x ∷ (c ++ d))
    → link new (some (last_node x c)) (x ∷ (c ++ d)) ≡ x ∷ (c ++ new ∷ d)
unfolding link
link-last_node new x [] d h = rw (same_id x)
link-last_node new x (y ∷ c) d h =
    rw (other_id x y c d h.0) (ap (λ l. x ∷ l) (link-last_node new y c d h.1))

-- a node that is linked in at a place stands between the two parts
pub link-end_of :
    (new : SkipListNode) (c d : Chain)
    → IsLinear (c ++ d)
    → link new (end_of c) (c ++ d) ≡ c ++ new ∷ d
link-end_of new [] d h = unfold link in refl
link-end_of new (x ∷ c) d h = link-last_node new x c d h

unlink-last_node :
    (id : ℕ) (x : SkipListNode) (c d : Chain)
    → IsLinear (x ∷ (c ++ d))
    → unlink id (some (last_node x c)) (x ∷ (c ++ d)) ≡ x ∷ (c ++ skip_head id d)
unfolding unlink
unlink-last_node id x [] d h = rw (same_id x)
unlink-last_node id x (y ∷ c) d h =
    rw (other_id x y c d h.0) (ap (λ l. x ∷ l) (unlink-last_node id y c d h.1))

-- unlinking at a place looks at the head of the part behind it, and nowhere else
pub unlink-end_of :
    (id : ℕ) (c d : Chain) → IsLinear (c ++ d) → unlink id (end_of c) (c ++ d) ≡ c ++ skip_head id d
unlink-end_of id [] d h = unfold unlink in refl
unlink-end_of id (x ∷ c) d h = unlink-last_node id x c d h

last_node-append : (x n : SkipListNode) (c : Chain) → last_node x (c ++ n ∷ []) ≡ n
last_node-append x n [] = refl
last_node-append x n (y ∷ c) = last_node-append y n c

pub end_of-append : (n : SkipListNode) (c : Chain) → end_of (c ++ n ∷ []) ≡ some n
end_of-append n [] = refl
end_of-append n (x ∷ c) = ap some (last_node-append x n c)
