-- ===== src/Ds/LinkedList/Slices.antt =====
-- What `List::Range` returns, with indices that count from the end and indices out of range.
use redis_like.Base.{
  ℕ, zero, suc, min, ◌+◌, ◌-◌, ◌≤◌, ◌≡◌, refl, sym, ◌∙◌, ap, List, [], ◌∷◌, arith, Bytes, ℤ, pos,
  negsuc, length, take, drop, length-take, Bool-cases, inl, inr, ltb, -ℤ-pos, ◌<ℤ◌, ◌⊎◌,
}
use redis_like.Ds.LinkedList.{slice, from_end, clamp_start, clamp_stop, range}

-- the position of an index in a list of `n` items; an index before the front is the front
abbrev pub position : ℕ → ℤ → ℕ
position n (pos i) = i
position n (negsuc i) = n - suc i

-- how many items stand up to an index and at it
abbrev pub count_to : ℕ → ℤ → ℕ
count_to n (pos i) = suc i
count_to n (negsuc i) = n - i

module _ {A : Type 0} where
  take_nil : (n : ℕ) → take {A = A} n [] ≡ []
  take_nil zero = refl
  take_nil (suc n) = refl

  take-drop : (m n t : ℕ) (l : List A) → t ≡ m + n → take n (drop m l) ≡ drop m (take t l)
  take-drop zero n t l e = let same_count : n ≡ t = omega arith in ap (λ k. take k l) same_count
  take-drop (suc m) n zero l e = absurd (omega arith)
  take-drop (suc m) n (suc t) [] e = take_nil n
  take-drop (suc m) n (suc t) (x ∷ l) e = take-drop m n t l (omega arith)

  drop_all : (n : ℕ) (l : List A) → length l ≤ n → drop n l ≡ []
  drop_all zero [] h = refl
  drop_all (suc n) [] h = refl
  drop_all zero (x ∷ l) h = absurd (omega arith)
  drop_all (suc n) (x ∷ l) h = drop_all n l (omega arith)

  take_all : (n : ℕ) (l : List A) → length l ≤ n → take n l ≡ l
  take_all zero [] h = refl
  take_all (suc n) [] h = refl
  take_all zero (x ∷ l) h = absurd (omega arith)
  take_all (suc n) (x ∷ l) h = ap (λ t. x ∷ t) (take_all n l (omega arith))

  take_clamp : (e : ℕ) (l : List A) → take e l ≡ take (min e (length l)) l
  take_clamp zero l = let k : 0 ≡ min 0 (length l) = omega arith in ap (λ n. take n l) k
  take_clamp (suc e) [] = sym (take_nil _)
  take_clamp (suc e) (x ∷ l) =
      let k : min (suc e) (suc (length l)) ≡ suc (min e (length l)) = omega arith in
      rw k (ap (λ t. x ∷ t) (take_clamp e l))

  -- from `a` up to the clamped end `e'`, in the two cases of the test
  slice_empty : (a e e' : ℕ) (l : List A) → e' ≡ min e (length l) → e' ≤ a → drop a (take e l) ≡ []
  slice_empty a e e' l c h = drop_all a (take e l) (omega (arith, length-take {0} e l))

  slice_full :
      (a e e' n : ℕ) (l : List A)
      → e' ≡ min e (length l)
      → e' ≡ a + n
      → take n (drop a l) ≡ drop a (take e l)
  slice_full a e e' n l c h =
      take-drop a n e' l h ∙ ap (λ k. drop a (take k l)) c ∙ ap (drop a) (sym (take_clamp e l))

first_lem : (n : ℕ) (start : ℤ) → clamp_start (from_end n start) ≡ pos (position n start)
unfolding clamp_start from_end
first_lem n (pos i) = ground arith
first_lem n (negsuc i) = ground arith

-- the last index, if an item stands at it or before it
slice-pos :
    (a i : ℕ) (l : List Bytes) → a ≤ i → slice (pos a) (pos i) l ≡ take (suc i - a) (drop a l)
unfolding slice
slice-pos a i l h = rw (-ℤ-pos i a h) (ap (λ k. take k (drop a l)) same_count)
  where
    same_count : suc (i - a) ≡ suc i - a
    same_count = omega arith

last_lem :
    (n : ℕ) (stop : ℤ)
    → ((min (count_to n stop) n ≡ 0) × (clamp_stop n (from_end n stop) <ℤ pos 0))
      ⊎ ((e : ℕ) × (min (count_to n stop) n ≡ suc e) × (clamp_stop n (from_end n stop) ≡ pos e))
unfolding clamp_stop from_end
last_lem zero (pos j) = inl (omega arith, ground arith)
last_lem (suc m) (pos j) = inr (min j m, omega arith, ground arith)
last_lem n (negsuc j) = elim (Bool-cases (ltb j n)) [
  | inl inside ↦ inr (n - suc j, ground arith, ground arith)
  | inr outside ↦ inl (ground arith, ground arith)
]

-- `Range` is the part of the list from the position of its first index up to the item of its last
-- index, that one included; a negative index counts from the end, and an index out of range is
-- clamped.
pub range_lem :
    (start stop : ℤ) (l : List Bytes)
    → range start stop l ≡ drop (position (length l) start) (take (count_to (length l) stop) l)
unfolding range
range_lem start stop l =
    let n = length l in
    let a = position n start in
    let e = count_to n stop in
    elim (last_lem n stop) [
      | inl (c, before) ↦ ground (arith, first_lem n start, slice_empty {A = Bytes} a e 0 l (sym c))
      | inr (i, c, exact) ↦ ground (
        arith,
        first_lem n start,
        slice_empty {A = Bytes} a e (suc i) l (sym c),
        slice_full {A = Bytes} a e (suc i) (suc i - a) l (sym c),
        slice-pos a i l,
      )
    ]
