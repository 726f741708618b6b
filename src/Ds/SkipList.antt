-- ===== src/Ds/SkipList.antt =====
-- src/ds/skiplist.h and src/ds/skiplist.cpp. A node has the number of its allocation for its address.
-- `chains` holds, for each level from 0 to `level_ - 1`, the nodes that the `forward` pointers of that
-- level lead through from the header; above, the header's pointers are null. `span`, `rank`,
-- `backward` and `tail_` are written and never read for a result, and are not kept. What `rng_` gives
-- in a call of `Insert` is an argument.
pub mod Chains
pub mod Order
pub mod Levels
pub mod Search
pub mod Placed
pub mod Valid
pub mod Insert
pub mod TakenOut
pub mod Trimmed
pub mod Delete
pub mod Kept
pub mod Queries
pub mod Ranks
use redis_like.Base.{
  ℕ, zero, suc, ◌+◌, ◌-◌, ◌%◌, ◌≡◌, refl, Bool, true, false, not, ◌&&◌, ◌||◌, Option, none, some,
  List, [], ◌∷◌, map, Bytes, Map, find, put, erase, same, ltb, ◌==◌, if◌then◌else◌, is_empty, take,
  drop, codes, ℤ, pos, negsuc, pos_part, ◌+ℤ◌, ltb_ℤ,
}
use redis_like.Ds.Double.{is_nan, order_of, lt_double, le_double, eq_double}

pub record SkipListNode : Type 0 where
  pub id : ℕ
  pub score : ℕ
  pub member : Bytes

abbrev pub Chain : Type 0
Chain = List SkipListNode

pub record SkipList : Type 0 where
  pub chains : List Chain
  pub score_map : Map ℕ
  pub size : ℕ
  pub allocated : ℕ

-- `SkipList()`
unfoldable pub empty : SkipList
empty = record { chains = [] ∷ []; score_map = []; size = 0; allocated = 0 }

-- `a < b` on `std::string`, byte by byte
unfoldable pub text_lt : Bytes → Bytes → Bool
text_lt [] [] = false
text_lt [] (y ∷ b) = true
text_lt (x ∷ a) [] = false
text_lt (x ∷ a) (y ∷ b) = ltb x y || x == y && text_lt a b

-- the two tests of the search, for a score and a member
unfoldable pub scores_below : ℕ → SkipListNode → Bool
scores_below score n = lt_double n.score score

unfoldable pub ties_below : ℕ → Bytes → SkipListNode → Bool
ties_below score member n = eq_double n.score score && text_lt n.member member

-- A place in the list: the header, or a node.
abbrev pub Place : Type 0
Place = Option SkipListNode

unfoldable pub behind : ℕ → Chain → Chain
behind id [] = []
behind id (n ∷ c) = if n.id == id then c else behind id c

-- what the pointers of a chain lead to from a place
unfoldable pub after : Place → Chain → Chain
unfolding behind
after none chain = chain
after (some n) chain = behind n.id chain

-- `while (node->forward[i] && test) node = node->forward[i];`
unfoldable pub walk : (SkipListNode → Bool) → Place → Chain → Place
walk test place [] = place
walk test place (n ∷ c) = if test n then walk test (some n) c else place

-- the two loops on one level
unfoldable pub search_level : ℕ → Bytes → Place → Chain → Place
unfolding walk after scores_below ties_below
search_level score member place chain =
    let place' = walk (scores_below score) place (after place chain) in
    walk (ties_below score member) place' (after place' chain)

abbrev pub Updates : Type 0
Updates = List (Place × Chain)

abbrev pub lowest : Updates → Place
lowest [] = none
lowest ((place, chain) ∷ updates) = place

-- The loop over the levels, the highest first: `update[i]` beside the chain of each level.
unfoldable pub search : ℕ → Bytes → List Chain → Updates
unfolding search_level
search score member [] = []
search score member (chain ∷ chains) =
    let updates = search score member chains in
    (search_level score member (lowest updates) chain, chain) ∷ updates

-- a pointer to the new node behind a place
unfoldable pub link : SkipListNode → Place → Chain → Chain
link new none chain = new ∷ chain
link new (some n) [] = []
link new (some n) (x ∷ chain) =
    if x.id == n.id then x ∷ new ∷ chain else x ∷ link new (some n) chain

-- The node on its levels; `update` is the header on the levels that are new.
unfoldable pub link_all : SkipListNode → ℕ → Updates → List Chain
unfolding link
link_all new zero [] = []
link_all new (suc level) [] = (new ∷ []) ∷ link_all new level []
link_all new zero ((place, chain) ∷ updates) = chain ∷ link_all new zero updates
link_all new (suc level) ((place, chain) ∷ updates) =
    link new place chain ∷ link_all new level updates

-- `if (update[i]->forward[i] == node) update[i]->forward[i] = node->forward[i];`
unfoldable pub skip_head : ℕ → Chain → Chain
skip_head id [] = []
skip_head id (x ∷ chain) = if x.id == id then chain else x ∷ chain

unfoldable pub unlink : ℕ → Place → Chain → Chain
unfolding skip_head
unlink id none chain = skip_head id chain
unlink id (some n) [] = []
unlink id (some n) (x ∷ chain) =
    if x.id == n.id then x ∷ skip_head id chain else x ∷ unlink id (some n) chain

unfoldable pub unlink_all : ℕ → Updates → List Chain
unfolding unlink
unlink_all id [] = []
unlink_all id ((place, chain) ∷ updates) = unlink id place chain ∷ unlink_all id updates

-- `while (level_ > 1 && header_->forward[level_ - 1] == nullptr) --level_;`, on the levels above 0
unfoldable pub trim : List Chain → List Chain
trim [] = []
trim (chain ∷ chains) =
    let rest = trim chains in if is_empty rest && is_empty chain then [] else chain ∷ rest

unfoldable pub lower_level : List Chain → List Chain
unfolding trim
lower_level [] = []
lower_level (chain ∷ chains) = chain ∷ trim chains

-- `node->forward[0]` at the end of the search
unfoldable pub found : Updates → Place
unfolding after
found [] = none
found ((place, chain) ∷ updates) = elim (after place chain) [ [] ↦ none | n ∷ _ ↦ some n ]

-- `Delete` of a member that the index holds with a score
unfoldable pub delete_node : ℕ → Bytes → SkipList → Bool × SkipList
unfolding search found unlink_all lower_level
delete_node score member sl =
    let forgotten = record sl { score_map = erase member sl.score_map } in
    let updates = search score member sl.chains in
    elim (found updates) [
      | none ↦ (false, forgotten)
      | some n ↦
          if same n.member member
          then (
            true,
            record forgotten { chains = lower_level (unlink_all n.id updates); size = sl.size - 1 },
          )
          else (false, forgotten)
    ]

unfoldable pub delete : Bytes → SkipList → Bool × SkipList
unfolding delete_node
delete member sl = elim (find member sl.score_map) [
  | none ↦ (false, sl)
  | some score ↦ delete_node score member sl
]

abbrev pub Rolls : Type 0
Rolls = ℕ → ℕ

-- `RandomLevel`, with the rounds that are left before `kMaxLevel`
unfoldable pub random_level : ℕ → Rolls → ℕ → ℕ
random_level zero rolls k = 1
random_level (suc rounds) rolls k =
    let higher = random_level rounds rolls (suc k) in if rolls k % 4 == 0 then suc higher else 1

abbrev pub max_level : ℕ
max_level = 32

-- `Insert` behind the test for the member
unfoldable pub insert_node : Rolls → ℕ → Bytes → SkipList → SkipList
unfolding search link_all random_level
insert_node rolls score member sl =
    let new : SkipListNode = record { id = sl.allocated; score = score; member = member } in
    record {
      chains = link_all new (random_level (max_level - 1) rolls 0) (search score member sl.chains);
      score_map = put member score sl.score_map;
      size = suc sl.size;
      allocated = suc sl.allocated;
    }

unfoldable pub insert : Rolls → ℕ → Bytes → SkipList → Bool × SkipList
unfolding delete insert_node
insert rolls score member sl = elim (find member sl.score_map) [
  | none ↦ (true, insert_node rolls score member sl)
  | some old ↦
      if eq_double old score
      then (false, sl)
      else (true, insert_node rolls score member (delete member sl).1)
]

-- level 0
abbrev pub floor : List Chain → Chain
floor [] = []
floor (c ∷ cs) = c

abbrev pub ground_chain : SkipList → Chain
ground_chain sl = floor sl.chains
