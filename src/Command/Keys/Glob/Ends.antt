-- ===== src/Command/Keys/Glob/Ends.antt =====
-- The loop of `MatchGlob` ends, for every text and pattern.
use redis_like.Base.{
  ℕ, zero, suc, ◌+◌, ◌*◌, ◌≤◌, ◌<◌, ◌≡◌, ◌≢◌, refl, ap, Bool, ◌||◌, Option, none, some, [], ◌∷◌,
  arith, Bytes, ◌==◌, length, length-drop, drop, Option-cases, Bool-cases, inl, inr,
}
use redis_like.Command.Keys.Glob.{
  find_close, class_matches, class_move, Move, advance, save, retry, fail, Saved, glob_move,
  after_move, glob_loop, glob_fuel,
}

find_close-shorter : (p : Bytes) (q : Bytes × Bytes) → find_close p ≡ some q → length q.1 < length p
unfolding find_close
find_close-shorter [] q h = cc
find_close-shorter (c ∷ p) q h = elim (Option-cases (find_close p)) [
  | inl e ↦ ground arith
  | inr (r, e) ↦ ground (arith, find_close-shorter p r e)
]

-- a move leaves less of the pattern, or goes back to the saved star one byte further on
abbrev Fits : Bytes → Saved → Move → Type 0
Fits p saved (advance p') = length p' < length p
Fits p saved (save p') = length p' < length p
Fits p none (retry bp bs) = ⊥
Fits p (some (bp', bs')) (retry bp bs) = (bp ≡ bp') × (bs ≡ drop 1 bs')
Fits p saved fail = Unit

class_move-Fits : (c x : ℕ) (p : Bytes) → Fits (x ∷ p) none (class_move c p)
unfolding class_move
class_move-Fits c x p = elim (Option-cases (find_close p)) [
  | inl e ↦ elim (Bool-cases (c == b'[')) [
    | inl t ↦ rw (e, class_move, t) (omega arith)
    | inr t ↦ rw (e, class_move, t) tt
  ]
  | inr (q, e) ↦ elim (Bool-cases (class_matches c q.0)) [
    | inl t ↦ rw (e, class_move, t) (omega (arith, find_close-shorter p q e))
    | inr t ↦ rw (e, class_move, t) tt
  ]
]

glob_move-Fits : (c : ℕ) (p : Bytes) (saved : Saved) → Fits p saved (glob_move c p saved)
unfolding glob_move
glob_move-Fits c [] none = tt
glob_move-Fits c [] (some (bp, bs)) = (refl, refl)
glob_move-Fits c (x ∷ p) none = elim (Bool-cases (x == b'?' || x == c)) [
  | inl e ↦ rw e (omega arith)
  | inr e ↦ elim (Bool-cases (x == b'*')) [
    | inl e' ↦ rw (e, e') (omega arith)
    | inr e' ↦ elim (Bool-cases (x == b'[')) [
      | inl e'' ↦ rw (e, e', e'') (class_move-Fits c x p)
      | inr e'' ↦ rw (e, e', e'') tt
    ]
  ]
]
glob_move-Fits c (x ∷ p) (some (bp, bs)) = elim (Bool-cases (x == b'?' || x == c)) [
  | inl e ↦ rw e (omega arith)
  | inr e ↦ elim (Bool-cases (x == b'*')) [
    | inl e' ↦ rw (e, e') (omega arith)
    | inr e' ↦ rw (e, e') (refl, refl)
  ]
]

-- `k` is above the length of every pattern in play, and `m` bounds the text that is left to try.
abbrev Bound : ℕ → ℕ → Bytes → Bytes → Saved → Type 0
Bound k m s p none = (length s ≤ m) × (length p < k)
Bound k m s p (some (bp, bs)) =
    (length p < k) × (length bp < k) × (length s ≤ length bs) × (length bs ≤ m)

abbrev Ends : Option Bool → Type 0
Ends r = r ≢ none

module _ (k f : ℕ) (next : Bytes → Bytes → Saved → Option Bool)
    (ih : (m : ℕ) (s p : Bytes) (saved : Saved)
      → Bound k m s p saved
      → m * k + length p < f
      → Ends (next s p saved)) where
  after_move-Ends :
      (m c : ℕ) (s p : Bytes) (saved : Saved) (mv : Move)
      → Bound k m (c ∷ s) p saved
      → Fits p saved mv
      → m * k + length p < suc f
      → Ends (after_move next c s saved mv)
  unfolding after_move
  after_move-Ends m c s p none (advance p') b h fuel =
      ih m s p' none (omega arith, omega arith) (omega arith)
  after_move-Ends m c s p (some (bp, bs)) (advance p') b h fuel =
      ih m s p' (some (bp, bs)) (omega arith, omega arith, omega arith, omega arith) (omega arith)
  after_move-Ends m c s p none (save p') b h fuel =
      ih m (c ∷ s) p' (some (p', c ∷ s)) (omega arith, omega arith, omega arith, omega arith)
        (omega arith)
  after_move-Ends m c s p (some (bp, bs)) (save p') b h fuel =
      ih m (c ∷ s) p' (some (p', c ∷ s)) (omega arith, omega arith, omega arith, omega arith)
        (omega arith)
  after_move-Ends m c s p none (retry bp bs) b h fuel = absurd h
  after_move-Ends zero c s p (some (bp', bs')) (retry bp bs) b h fuel = absurd (omega arith)
  after_move-Ends (suc m) c s p (some (bp', bs')) (retry bp bs) b (same_p, later) fuel =
      let shorter : length bs + 1 ≡ length bs' =
        omega (arith, ap length later, length-drop {0} 1 bs') in
      let as_long : length bp ≡ length bp' = ap length same_p in
      ih m bs bp (some (bp, bs)) (omega arith, omega arith, omega arith, omega arith) (omega arith)
  after_move-Ends m c s p saved fail b h fuel = λ e. cc e

glob_loop-Ends :
    (f k m : ℕ) (s p : Bytes) (saved : Saved)
    → Bound k m s p saved
    → m * k + length p < f
    → Ends (glob_loop f s p saved)
unfolding glob_loop
glob_loop-Ends zero k m s p saved b h = absurd (omega arith)
glob_loop-Ends (suc f) k m [] p saved b h = λ e. cc e
glob_loop-Ends (suc f) k m (c ∷ s) p saved b h =
    after_move-Ends k f (glob_loop f) (glob_loop-Ends f k) m c s p saved (glob_move c p saved) b
      (glob_move-Fits c p saved) h

-- The loop of `MatchGlob` ends with an answer, for every text and every pattern.
pub glob_loop-ends : (s p : Bytes) → (b : Bool) × (glob_loop (glob_fuel s p) s p none ≡ some b)
glob_loop-ends s p = elim (Option-cases (glob_loop (glob_fuel s p) s p none)) [
  | inl e ↦ absurd (
      glob_loop-Ends (glob_fuel s p) (suc (length p)) (length s) s p none (omega arith, omega arith)
        (omega arith) e)
  | inr r ↦ r
]
