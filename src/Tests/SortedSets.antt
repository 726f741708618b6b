-- ===== src/Tests/SortedSets.antt =====
-- Instances of the theorems on skip lists and sorted sets.
use redis_like.Base.{
  negsuc, ℕ, ◌+◌, ◌-◌, ◌≡◌, refl, true, [], ◌∷◌, some, none, codes, same, if◌then◌else◌, pos, ltb,
  ◌==◌, find, put, erase, has,
}
use redis_like.Ds.SkipList.Queries.{get_rank, members, range_by_rank, range_by_score}
use redis_like.Ds.Double.{is_nan, order_of, lt_double, eq_double}
use redis_like.Ds.SkipList.{SkipList, Rolls, empty, insert, delete, text_lt, ground_chain}
use redis_like.Ds.SkipList.Valid.{score_in, IsValid, empty-IsValid}
use redis_like.Ds.SkipList.Kept.{is_score, insert-IsValid, insert_lem, delete_lem}
use redis_like.Ds.SkipList.Ranks.{position, scores_within, range_by_score-scores_within}
use redis_like.Object.{zset}
use redis_like.Dict.{Dict}
use redis_like.Command.SortedSets.{
  DoubleText, parse_double, zadd_cmd, zrem_cmd, rev_rank, rank_reply,
}
use redis_like.Command.SortedSets.Valid.{AllValid}
use redis_like.Command.SortedSets.Kept.{zadd_zrem-AllValid, IsBelow, ranks_lem}

-- one level, and three
abbrev low : Rolls
low k = 1

abbrev high : Rolls
high k = if ltb k 2 then 0 else 1

-- the patterns of 1.0, 2.0 and 3.0
abbrev one : ℕ
one = 0x3ff0_0000_0000_0000

abbrev two : ℕ
two = 0x4000_0000_0000_0000

abbrev three : ℕ
three = 0x4008_0000_0000_0000

-- the members b with 2.0 and c with 1.0
abbrev pair : SkipList
pair = (insert high one (codes "c") (insert low two (codes "b") empty).1).1

pair-IsValid : IsValid pair
pair-IsValid =
    insert-IsValid high one (codes "c") (insert low two (codes "b") empty).1
      (insert-IsValid low two (codes "b") empty empty-IsValid (unfold is_nan in refl))
      (unfold is_nan in refl)

insert_lem_example :
    IsValid (insert low three (codes "b") pair).1
    × (is_score three (score_in (codes "b") (ground_chain (insert low three (codes "b") pair).1))
        ≡ true)
    × (score_in (codes "c") (ground_chain (insert low three (codes "b") pair).1)
        ≡ score_in (codes "c") (ground_chain pair))
insert_lem_example =
    insert_lem low three (codes "b") (codes "c") pair pair-IsValid (unfold is_nan in refl)
      (unfold same in refl)

delete_lem_example :
    IsValid (delete (codes "b") pair).1
    × ((delete (codes "b") pair).0 ≡ has (codes "b") pair.score_map)
    × (score_in (codes "c") (ground_chain (delete (codes "b") pair).1)
        ≡ (if same (codes "b") (codes "c") then none else score_in (codes "c") (ground_chain pair)))
    × ((delete (codes "b") pair).1.size + (if (delete (codes "b") pair).0 then 1 else 0)
        ≡ pair.size)
delete_lem_example = delete_lem (codes "b") (codes "c") pair pair-IsValid

range_by_score-scores_within_example :
    range_by_score two three pair ≡ scores_within two three (ground_chain pair)
range_by_score-scores_within_example =
    range_by_score-scores_within two three pair pair-IsValid (unfold is_nan in refl)

-- the members in their order, with a node on three levels, after b has gone
ranked_pair :
    range_by_rank (pos 0) (negsuc 0) (delete (codes "b") (insert low three (codes "a") pair).1).1
    ≡ codes "c" ∷ codes "a" ∷ []
unfolding range_by_rank delete insert empty find put erase same lt_double eq_double is_nan order_of
    text_lt
ranked_pair = refl

pair_rank : get_rank (codes "b") pair ≡ some 1
unfolding get_rank insert delete empty find put erase same lt_double eq_double is_nan order_of
    text_lt
pair_rank = refl

ranks_lem_example :
    (get_rank (codes "b") pair ≡ position 0 (codes "b") (members (ground_chain pair)))
    × IsBelow pair.size (get_rank (codes "b") pair)
    × (rank_reply (rev_rank pair.size) (get_rank (codes "b") pair)
        ≡ rank_reply (λ r. pos (pair.size - 1 - r)) (get_rank (codes "b") pair))
ranks_lem_example = ranks_lem (codes "b") pair pair-IsValid

-- a reading of digits alone, and a writing of nothing
abbrev digits : DoubleText
digits = record {
  strtod = λ s. elim s [ [] ↦ none | c ∷ rest ↦ if c == b'1' then some (one, rest) else none ];
  format = λ v. codes "1";
}

abbrev held : Dict
held = (codes "z", record { value = zset pair; expire_at = none }) ∷ []

zadd_zrem-AllValid_example :
    AllValid (zadd_cmd digits (λ k. low) (codes "z" ∷ codes "1" ∷ codes "b" ∷ []) (pos 0) held).1
    × AllValid (zrem_cmd (codes "z" ∷ codes "1" ∷ codes "b" ∷ []) (pos 0) held).1
unfolding parse_double
zadd_zrem-AllValid_example =
    zadd_zrem-AllValid digits (λ k. low) (codes "z" ∷ codes "1" ∷ codes "b" ∷ []) (pos 0) held
      (unfold is_nan in refl, tt) (pair-IsValid, tt)
