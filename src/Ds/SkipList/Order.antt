-- ===== src/Ds/SkipList/Order.antt =====
-- The order of the nodes: by score, and by member where the scores are equal.
use redis_like.Base.{ℕ, ◌≡◌, refl, Bool, true, false, ◌||◌, [], ◌∷◌, arith, All, Bytes, same}
use redis_like.Ds.Double.{is_nan, lt_double, eq_double}
use redis_like.Ds.SkipList.{SkipListNode, Chain, text_lt, scores_below, ties_below}

-- the tests of the search together
unfoldable pub is_below : ℕ → Bytes → SkipListNode → Bool
is_below score member n = scores_below score n || ties_below score member n

abbrev pub before : SkipListNode → SkipListNode → Bool
before x y = is_below y.score y.member x

-- the nodes in their order, each strictly before those behind it
abbrev pub IsSorted : Chain → Type 0
IsSorted [] = Unit
IsSorted (x ∷ c) = All (λ y. before x y ≡ true) c × IsSorted c

text_lt_trans : (a b c : Bytes) → text_lt a b ≡ true → text_lt b c ≡ true → text_lt a c ≡ true
unfolding text_lt
text_lt_trans [] [] [] h k = cc
text_lt_trans [] [] (z ∷ c) h k = refl
text_lt_trans [] (y ∷ b) [] h k = cc
text_lt_trans [] (y ∷ b) (z ∷ c) h k = refl
text_lt_trans (x ∷ a) [] [] h k = cc
text_lt_trans (x ∷ a) [] (z ∷ c) h k = cc
text_lt_trans (x ∷ a) (y ∷ b) [] h k = cc
text_lt_trans (x ∷ a) (y ∷ b) (z ∷ c) h k = ground (arith, text_lt_trans a b c)

lt_double_trans : (x y z : ℕ) → lt_double x y ≡ true → lt_double y z ≡ true → lt_double x z ≡ true
unfolding lt_double
lt_double_trans x y z h k = ground arith

lt-eq_double : (x y z : ℕ) → lt_double x y ≡ true → eq_double y z ≡ true → lt_double x z ≡ true
unfolding lt_double eq_double
lt-eq_double x y z h k = ground arith

eq-lt_double : (x y z : ℕ) → eq_double x y ≡ true → lt_double y z ≡ true → lt_double x z ≡ true
unfolding lt_double eq_double
eq-lt_double x y z h k = ground arith

eq_double_trans : (x y z : ℕ) → eq_double x y ≡ true → eq_double y z ≡ true → eq_double x z ≡ true
unfolding eq_double
eq_double_trans x y z h k = ground arith

-- what stands before a node whose score is below a bound has its score below it
pub scores_below-before :
    (score : ℕ) (x y : SkipListNode)
    → before x y ≡ true
    → scores_below score y ≡ true
    → scores_below score x ≡ true
unfolding is_below scores_below ties_below
scores_below-before score x y h k =
    ground (arith, lt_double_trans x.score y.score score, eq-lt_double x.score y.score score)

pub is_below-before :
    (score : ℕ) (member : Bytes) (x y : SkipListNode)
    → before x y ≡ true
    → is_below score member y ≡ true
    → is_below score member x ≡ true
unfolding is_below scores_below ties_below
is_below-before score member x y h k = ground (
  arith,
  lt_double_trans x.score y.score score,
  eq-lt_double x.score y.score score,
  lt-eq_double x.score y.score score,
  eq_double_trans x.score y.score score,
  text_lt_trans x.member y.member member,
)

-- nodes whose scores are numbers and that differ are before one another
text_lt_total : (a b : Bytes) → text_lt a b ≡ false → same a b ≡ false → text_lt b a ≡ true
unfolding text_lt same
text_lt_total [] [] h k = cc
text_lt_total [] (y ∷ b) h k = cc
text_lt_total (x ∷ a) [] h k = refl
text_lt_total (x ∷ a) (y ∷ b) h k = ground (arith, text_lt_total a b)

pub before_total :
    (x y : SkipListNode)
    → is_nan x.score ≡ false
    → is_nan y.score ≡ false
    → same x.member y.member ≡ false
    → before x y ≡ false
    → before y x ≡ true
unfolding is_below scores_below ties_below lt_double eq_double
before_total x y p q differ h = ground (arith, text_lt_total x.member y.member)

text_lt_irrefl : (a : Bytes) → text_lt a a ≡ false
unfolding text_lt
text_lt_irrefl [] = refl
text_lt_irrefl (x ∷ a) = ground (arith, text_lt_irrefl a)

-- no node is before itself, nor before a node of the same score and member
pub before_irrefl :
    (x y : SkipListNode) → x.score ≡ y.score → x.member ≡ y.member → before x y ≡ false
unfolding is_below scores_below ties_below lt_double
before_irrefl x y e f = ground (arith, text_lt_irrefl y.member)
