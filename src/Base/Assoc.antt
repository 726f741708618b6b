-- ===== src/Base/Assoc.antt =====
-- `std::unordered_map` with text keys, and `std::unordered_set`, as lists. C++ leaves the order of
-- the entries open: here it is the order of insertion, and no theorem is about it.
use Prim.Native.Nat.{◌+◌}
use mathlib.Core.Path.{◌≡◌, refl, ◌∙◌}
use mathlib.Core.Logic.{inl, inr}
use mathlib.Core.Bool.{Bool, true, false}
use mathlib.Core.Option.{Option, none, some}
use mathlib.Core.List.{List, [], ◌∷◌, ◌++◌}
use native.Mathlib.Omega.{arith}
use redis_like.Base.Lists.{length}
use redis_like.Base.Strings.{Bytes, same, same_iff}
use redis_like.Base.Tests.{if◌then◌else◌, Bool-cases}

abbrev pub Map {ℓ} : Type ℓ → Type ℓ
Map V = List (Bytes × V)

module _ {ℓ} {V : Type ℓ} where
  -- `find(key)`; `none` is `end()`
  unfoldable pub find : Bytes → Map V → Option V
  find k [] = none
  find k ((j, v) ∷ m) = if same j k then some v else find k m

  -- `m[key] = v`
  unfoldable pub put : Bytes → V → Map V → Map V
  put k v [] = (k, v) ∷ []
  put k v ((j, w) ∷ m) = if same j k then (j, v) ∷ m else (j, w) ∷ put k v m

  -- `erase(key)`
  unfoldable pub erase : Bytes → Map V → Map V
  erase k [] = []
  erase k ((j, w) ∷ m) = let rest = erase k m in if same j k then rest else (j, w) ∷ rest

  -- `find(key) != end()`
  unfoldable pub has : Bytes → Map V → Bool
  has k [] = false
  has k ((j, w) ∷ m) = if same j k then true else has k m

  abbrev pub keys : Map V → List Bytes
  keys [] = []
  keys ((j, w) ∷ m) = j ∷ keys m

  pub find-put :
      (k j : Bytes) (v : V) (m : Map V)
      → find j (put k v m) ≡ (if same k j then some v else find j m)
  unfolding find put
  find-put k j v [] = refl
  find-put k j v ((i, w) ∷ m) =
      ground (arith, same_iff k j, same_iff i k, same_iff i j, find-put k j v m)

  pub find-erase :
      (k j : Bytes) (m : Map V) → find j (erase k m) ≡ (if same k j then none else find j m)
  unfolding find erase
  find-erase k j [] = ground arith
  find-erase k j ((i, w) ∷ m) =
      ground (arith, same_iff k j, same_iff i k, same_iff i j, find-erase k j m)

  abbrev pub is_some : Option V → Bool
  is_some none = false
  is_some (some v) = true

  pub has-find : (k : Bytes) (m : Map V) → has k m ≡ is_some (find k m)
  unfolding find has
  has-find k [] = refl
  has-find k ((j, w) ∷ m) = ground (arith, has-find k m)

  pub has-put :
      (k j : Bytes) (v : V) (m : Map V) → has j (put k v m) ≡ (if same k j then true else has j m)
  has-put k j v m = has-find j _ ∙ rw (find-put k j v m, has-find j m) (ground arith)

  pub has-erase :
      (k j : Bytes) (m : Map V) → has j (erase k m) ≡ (if same k j then false else has j m)
  has-erase k j m = has-find j _ ∙ rw (find-erase k j m, has-find j m) (ground arith)

  -- no key stands twice
  abbrev pub IsDistinct : Map V → Type 0
  IsDistinct [] = Unit
  IsDistinct ((j, w) ∷ m) = (has j m ≡ false) × IsDistinct m

  pub put-IsDistinct : (k : Bytes) (v : V) (m : Map V) → IsDistinct m → IsDistinct (put k v m)
  unfolding put
  put-IsDistinct k v [] d = unfold has in (refl, tt)
  put-IsDistinct k v ((j, w) ∷ m) d = elim (Bool-cases (same j k)) [
    | inl e ↦ rw (e, IsDistinct) d
    | inr e ↦
        rw (e, IsDistinct)
          (ground (arith, has-put k j v m, same_iff k j, same_iff j k), put-IsDistinct k v m d.1)
  ]

  pub erase-IsDistinct : (k : Bytes) (m : Map V) → IsDistinct m → IsDistinct (erase k m)
  unfolding erase
  erase-IsDistinct k [] d = tt
  erase-IsDistinct k ((j, w) ∷ m) d = elim (Bool-cases (same j k)) [
    | inl e ↦ rw (e, IsDistinct) (erase-IsDistinct k m d.1)
    | inr e ↦ rw (e, IsDistinct) (ground (arith, has-erase k j m), erase-IsDistinct k m d.1)
  ]

  -- what is not there is not erased
  pub erase_absent : (k : Bytes) (m : Map V) → has k m ≡ false → erase k m ≡ m
  unfolding erase has
  erase_absent k [] h = refl
  erase_absent k ((j, w) ∷ m) h = ground (arith, erase_absent k m)

  pub length-erase :
      (k : Bytes) (m : Map V)
      → IsDistinct m
      → length (erase k m) + (if has k m then 1 else 0) ≡ length m
  unfolding erase has
  length-erase k [] d = omega arith
  length-erase k ((j, w) ∷ m) d = elim (Bool-cases (same j k)) [
    | inl e ↦
        let gone : has k m ≡ false = rw ((same_iff j k).0 e) at (d.0) in
        ground (arith, erase_absent k m gone)
    | inr e ↦ ground (arith, length-erase k m d.1)
  ]

  -- a key that is not there goes to the end
  pub put-fresh : (k : Bytes) (v : V) (m : Map V) → has k m ≡ false → put k v m ≡ m ++ (k, v) ∷ []
  unfolding put has
  put-fresh k v [] h = refl
  put-fresh k v ((j, w) ∷ m) h = ground (arith, put-fresh k v m)

  pub has-append-fresh :
      (k j : Bytes) (v : V) (m n : Map V) → has j (m ++ (k, v) ∷ n) ≡ false → same k j ≡ false
  unfolding has
  has-append-fresh k j v [] n h = ground arith
  has-append-fresh k j v ((i, w) ∷ m) n h = ground (arith, has-append-fresh k j v m n)

  -- in a map where no key stands twice, a key is not among those before it
  pub IsDistinct-fresh :
      (k : Bytes) (v : V) (m n : Map V) → IsDistinct (m ++ (k, v) ∷ n) → has k m ≡ false
  unfolding has
  IsDistinct-fresh k v [] n d = refl
  IsDistinct-fresh k v ((j, w) ∷ m) n d = ground (
    arith,
    has-append-fresh k j v m n d.0,
    same_iff k j,
    same_iff j k,
    IsDistinct-fresh k v m n d.1,
  )
