-- ===== src/Ds/LinkedList.antt =====
-- The class `List` of src/ds/list.h and `List::Range` of src/ds/list.cpp; `std::list` and `std::deque`
-- are lists.
pub mod Slices
use redis_like.Base.{
  ℕ, suc, ◌≡◌, refl, Option, none, some, List, [], ◌∷◌, ◌++◌, ◌==◌, if◌then◌else◌, Bytes, codes, ℤ,
  pos, negsuc, pos_part, ◌+ℤ◌, ◌-ℤ◌, ltb_ℤ, leb_ℤ, length, take, drop,
}

unfoldable pub lpush : Bytes → List Bytes → List Bytes
lpush val l = val ∷ l

unfoldable pub rpush : Bytes → List Bytes → List Bytes
rpush val l = l ++ val ∷ []

-- `none` is `std::nullopt`; the list after it stands beside
unfoldable pub lpop : List Bytes → Option Bytes × List Bytes
lpop [] = (none, [])
lpop (val ∷ l) = (some val, l)

unfoldable pub rpop : List Bytes → Option Bytes × List Bytes
rpop [] = (none, [])
rpop (val ∷ []) = (some val, [])
rpop (v ∷ w ∷ l) = let (val, rest) = rpop (w ∷ l) in (val, v ∷ rest)

-- `it` is advanced by `start`, and the loop makes stop - start + 1 rounds
unfoldable pub slice : ℤ → ℤ → List Bytes → List Bytes
unfolding ◌-ℤ◌
slice start stop l = take (suc (pos_part (stop -ℤ start))) (drop (pos_part start) l)

-- `if (start < 0) start += sz;`
unfoldable pub from_end : ℕ → ℤ → ℤ
unfolding ◌+ℤ◌
from_end sz i = if ltb_ℤ i (pos 0) then i +ℤ pos sz else i

-- `if (start < 0) start = 0;`
unfoldable pub clamp_start : ℤ → ℤ
clamp_start i = if ltb_ℤ i (pos 0) then pos 0 else i

-- `if (stop >= sz) stop = sz - 1;`
unfoldable pub clamp_stop : ℕ → ℤ → ℤ
unfolding ◌-ℤ◌
clamp_stop sz i = if leb_ℤ (pos sz) i then pos sz -ℤ pos 1 else i

unfoldable pub range : ℤ → ℤ → List Bytes → List Bytes
range start stop l =
    let sz = length l in
    let first = clamp_start (from_end sz start) in
    let last = clamp_stop sz (from_end sz stop) in
    if sz == 0 then [] else if ltb_ℤ last first then [] else slice first last l

both_ends : rpop (rpush (codes "c") (lpush (codes "a") [])) ≡ (some (codes "c"), codes "a" ∷ [])
unfolding rpop rpush lpush
both_ends = refl

last_two :
    range (negsuc 1) (negsuc 0) (codes "a" ∷ codes "b" ∷ codes "c" ∷ [])
    ≡ codes "b" ∷ codes "c" ∷ []
unfolding range slice from_end clamp_start clamp_stop
last_two = refl
