-- ===== src/Command/Lists/Ranges.antt =====
-- LRANGE against the sequence of a key.
use redis_like.Base.{
  ◌≡◌, refl, sym, ◌∙◌, ap, Option, none, some, List, [], ◌∷◌, ◌++◌, append_assoc, append-nil, Bytes,
  ℤ, length, take, drop,
}
use redis_like.Resp.{empty_array}
use redis_like.Object.{RedisObject, as_list}
use redis_like.Dict.{Dict}
use redis_like.Ds.LinkedList.{rpush, range}
use redis_like.Ds.LinkedList.Slices.{position, count_to, range_lem}
use redis_like.Expire.View.{view}
use redis_like.Command.Context.{typed, get_typed}
use redis_like.Command.Views.{view-check_expire, get_typed_lem}
use redis_like.Command.Lists.{array_reply, copy_all, range_with}

copy_all-append : (helper l : List Bytes) → copy_all helper l ≡ helper ++ l
unfolding copy_all rpush
copy_all-append helper [] = sym (append-nil helper)
copy_all-append helper (v ∷ l) =
    copy_all-append (helper ++ v ∷ []) l ∙ append_assoc helper (v ∷ []) l

-- the items from the position of the first index up to that of the last, of a list that is seen
abbrev pub lrange_reply : ℤ → ℤ → Option RedisObject → Bytes
lrange_reply start stop o = elim (typed as_list o) [
  | none ↦ empty_array
  | some l ↦ array_reply (drop (position (length l) start) (take (count_to (length l) stop) l))
]

-- LRANGE behind its numbers replies with the part of the list from the position of its first index up
-- to the item of its last index, that one included; a negative index counts from the end, and an index
-- out of range is clamped. The reply for a missing key or another type is the empty array, and nothing
-- that is seen changes.
pub range_with_lem :
    (start stop : ℤ) (key j : Bytes) (now : ℤ) (db : Dict)
    → ((range_with start stop key now db).0 ≡ lrange_reply start stop (view db now key))
      × (view (range_with start stop key now db).1 now j ≡ view db now j)
unfolding range_with get_typed
range_with_lem start stop key j now db = (
  ap
        (λ (found : Option (List Bytes)). elim found as (λ _. Bytes) [
          | none ↦ empty_array
          | some l ↦ array_reply (range start stop (copy_all [] l))
        ])
        (ap (λ r. r.0) (get_typed_lem as_list db key now))
      ∙ ranged (typed as_list (view db now key)),
  view-check_expire db key j now,
)
  where
    ranged :
        (o : Option (List Bytes))
        → elim o as (λ _. Bytes) [
          | none ↦ empty_array
          | some l ↦ array_reply (range start stop (copy_all [] l))
        ]
          ≡ elim o as (λ _. Bytes) [
            | none ↦ empty_array
            | some l ↦
                array_reply (drop (position (length l) start) (take (count_to (length l) stop) l))
          ]
    ranged none = refl
    ranged (some l) =
        ap array_reply (ap (range start stop) (copy_all-append [] l) ∙ range_lem start stop l)
