-- ===== src/Command/Keys/Glob/Agrees.antt =====
-- The loop of `MatchGlob` against the matcher by recursion, by an invariant on the saved star.
use redis_like.Base.{
  ℕ, zero, suc, ◌≤◌, ◌<◌, ◌≡◌, refl, fun_ext, ◌∙◌, Bool, true, false, ◌||◌, Option, none, some, [],
  ◌∷◌, arith, Bytes, ◌==◌, length, drop, Bool-cases, inl, inr,
}
use redis_like.Command.Keys.Glob.{
  retry, fail, Saved, glob_move, after_move, glob_loop, glob_fuel, match_glob,
}
use redis_like.Command.Keys.Glob.Ends.{glob_loop-ends}
use redis_like.Command.Keys.Glob.Plain.{
  some_end, glob_byte, glob, IsPlain, LacksStar, glob-star, glob-byte, some_end_twice,
  only_stars-glob, some_end_behind,
}

-- the ends of the text that the saved star has not been tried at
later : Bytes → Bytes → Bool
later bp [] = false
later bp (c ∷ bs) = some_end (glob bp) bs

later_next : (bp : Bytes) (c : ℕ) (bs : Bytes) → later bp (c ∷ bs) ≡ (glob bp bs || later bp bs)
unfolding later some_end
later_next bp c [] = ground arith
later_next bp c (d ∷ bs) = refl

later-some_end : (bp bs : Bytes) → later bp bs ≡ true → some_end (glob bp) bs ≡ true
unfolding later some_end
later-some_end bp [] h = cc
later-some_end bp (c ∷ bs) h = ground arith

-- `answer` is what the matcher says of the whole text and pattern. With a star saved, the ends that
-- are left to it count, and none of them is lost by going on from here.
abbrev Inv : Bool → Bytes → Bytes → Saved → Type 0
Inv answer s p none = (IsPlain p) × LacksStar s × (answer ≡ glob p s)
Inv answer s p (some (bp, bs)) =
    IsPlain p
    × LacksStar s
    × (answer ≡ (glob p s || later bp bs))
    × (later bp bs ≡ true → some_end (glob p) s ≡ true)
    × IsPlain bp
    × LacksStar bs
    × (length s ≤ length bs)

retry-Inv :
    (answer : Bool) (bp bs : Bytes)
    → IsPlain bp
    → LacksStar bs
    → 0 < length bs
    → answer ≡ later bp bs
    → Inv answer (drop 1 bs) bp (some (bp, drop 1 bs))
retry-Inv answer bp [] plain lacks h e = absurd (omega arith)
retry-Inv answer bp (c ∷ bs) plain lacks h e =
    (plain, lacks.1, e ∙ later_next bp c bs, later-some_end bp bs, plain, lacks.1, omega arith)

Inv-IsPlain :
    (answer : Bool) (c x : ℕ) (s p : Bytes) (saved : Saved)
    → Inv answer (c ∷ s) (x ∷ p) saved
    → IsPlain p × LacksStar (c ∷ s)
Inv-IsPlain answer c x s p none inv = (inv.0.1, inv.1)
Inv-IsPlain answer c x s p (some _) inv = (inv.0.1, inv.1)

-- the loop's answer, if it gives one, is right
abbrev Right : Bool → Option Bool → Type 0
Right answer r = (b : Bool) → r ≡ some b → b ≡ answer

module _ (answer : Bool) (next : Bytes → Bytes → Saved → Option Bool)
    (ih : (s p : Bytes) (saved : Saved)
      → Inv answer s p saved
      → Right answer (next s p saved)) where
  -- no byte of the pattern fits: back to the star, or no match
  mismatch-Right :
      (c : ℕ) (s p : Bytes) (saved : Saved)
      → Inv answer (c ∷ s) p saved
      → glob p (c ∷ s) ≡ false
      → Right answer (
          after_move next c s saved
            (elim saved [ none ↦ fail | some (bp, bs) ↦ retry bp (drop 1 bs) ]))
  unfolding after_move
  mismatch-Right c s p none inv no_match b e = ground (arith, inv.2)
  mismatch-Right c s p (some (bp, bs)) inv no_match b e =
      let (_, _, now, _, plain, lacks, shorter) = inv in
      ih (drop 1 bs) bp (some (bp, drop 1 bs))
        (retry-Inv answer bp bs plain lacks (omega arith) (ground (arith, now))) b e

  byte-Right :
      (c x : ℕ) (s p : Bytes) (saved : Saved)
      → Inv answer (c ∷ s) (x ∷ p) saved
      → (x == b'?' || x == c) ≡ true
      → Right answer (next s p saved)
  unfolding glob_byte
  byte-Right c x s p none (plain, lacks, now) fits =
      let apart : (x == b'*') ≡ false = ground (arith, lacks.0) in
      ih s p none (plain.1, lacks.1, ground (arith, now, glob-byte x p (c ∷ s) apart))
  byte-Right c x s p (some (bp, bs)) (plain, lacks, now, kept, plain', lacks', shorter) fits =
      let apart : (x == b'*') ≡ false = ground (arith, lacks.0) in
      ih s p (some (bp, bs)) (
        plain.1,
        lacks.1,
        ground (arith, now, glob-byte x p (c ∷ s) apart),
        λ h. some_end_behind x p c s apart (kept h),
        plain',
        lacks',
        omega arith,
      )

  star-Inv :
      (c x : ℕ) (s p : Bytes) (saved : Saved)
      → Inv answer (c ∷ s) (x ∷ p) saved
      → (x == b'*') ≡ true
      → answer ≡ some_end (glob p) (c ∷ s)
  star-Inv c x s p none (plain, lacks, now) star = now ∙ glob-star x p (c ∷ s) star
  star-Inv c x s p (some (bp, bs)) (plain, lacks, now, kept, plain', lacks', shorter) star =
      let whole = glob-star x p (c ∷ s) star in
      let inner : some_end (glob (x ∷ p)) (c ∷ s) ≡ some_end (glob p) (c ∷ s) =
        rw (fun_ext (λ t. glob-star x p t star)) (some_end_twice (glob p) (c ∷ s)) in
      ground (arith, now, kept, whole, inner)

  star-Right :
      (c x : ℕ) (s p : Bytes) (saved : Saved)
      → Inv answer (c ∷ s) (x ∷ p) saved
      → (x == b'*') ≡ true
      → Right answer (next (c ∷ s) p (some (p, c ∷ s)))
  unfolding some_end later
  star-Right c x s p saved inv star =
      let (plain, lacks) = Inv-IsPlain answer c x s p saved inv in
      ih (c ∷ s) p (some (p, c ∷ s)) (
        plain,
        lacks,
        star-Inv c x s p saved inv star,
        later-some_end p (c ∷ s),
        plain,
        lacks,
        omega arith,
      )

no_byte : (c : ℕ) (s : Bytes) → glob [] (c ∷ s) ≡ false
unfolding glob
no_byte c s = refl

other_byte :
    (x : ℕ) (p : Bytes) (c : ℕ) (s : Bytes)
    → (x == b'*') ≡ false
    → (x == b'?' || x == c) ≡ false
    → glob (x ∷ p) (c ∷ s) ≡ false
unfolding glob_byte
other_byte x p c s e e' = glob-byte x p (c ∷ s) e ∙ rw e'

module _ (answer : Bool) (next : Bytes → Bytes → Saved → Option Bool)
    (ih : (s p : Bytes) (saved : Saved)
      → Inv answer s p saved
      → Right answer (next s p saved)) where
  round-Right :
      (c : ℕ) (s p : Bytes) (saved : Saved)
      → Inv answer (c ∷ s) p saved
      → Right answer (after_move next c s saved (glob_move c p saved))
  unfolding glob_move after_move
  round-Right c s [] none inv = mismatch-Right answer next ih c s [] none inv (no_byte c s)
  round-Right c s [] (some q) inv = mismatch-Right answer next ih c s [] (some q) inv (no_byte c s)
  round-Right c s (x ∷ p) none inv = elim (Bool-cases (x == b'?' || x == c)) [
    | inl e ↦ rw e (byte-Right answer next ih c x s p none inv e)
    | inr e ↦ elim (Bool-cases (x == b'*')) [
      | inl e' ↦ rw (e, e') (star-Right answer next ih c x s p none inv e')
      | inr e' ↦
          rw (e, e', inv.0.0)
            (mismatch-Right answer next ih c s (x ∷ p) none inv (other_byte x p c s e' e))
    ]
  ]
  round-Right c s (x ∷ p) (some q) inv = elim (Bool-cases (x == b'?' || x == c)) [
    | inl e ↦ rw e (byte-Right answer next ih c x s p (some q) inv e)
    | inr e ↦ elim (Bool-cases (x == b'*')) [
      | inl e' ↦ rw (e, e') (star-Right answer next ih c x s p (some q) inv e')
      | inr e' ↦
          rw (e, e')
            (mismatch-Right answer next ih c s (x ∷ p) (some q) inv (other_byte x p c s e' e))
    ]
  ]

some_end_nil : (f : Bytes → Bool) → some_end f [] ≡ f []
unfolding some_end
some_end_nil f = refl

glob_loop-Right :
    (f : ℕ) (answer : Bool) (s p : Bytes) (saved : Saved)
    → Inv answer s p saved
    → Right answer (glob_loop f s p saved)
unfolding glob_loop
glob_loop-Right zero answer s p saved inv b e = cc
glob_loop-Right (suc f) answer [] p none inv b e = ground (arith, only_stars-glob p, inv.2)
glob_loop-Right (suc f) answer [] p (some (bp, bs)) inv b e =
    ground (arith, only_stars-glob p, inv.2, inv.3, some_end_nil (glob p))
glob_loop-Right (suc f) answer (c ∷ s) p saved inv b e =
    round-Right answer (glob_loop f) (glob_loop-Right f answer) c s p saved inv b e

-- `MatchGlob` accepts what the matcher by recursion accepts, on a pattern with no `[` and a text with
-- no asterisk.
pub match_glob-glob : (s p : Bytes) → IsPlain p → LacksStar s → match_glob s p ≡ glob p s
match_glob-glob s p plain lacks =
    let (b, ended) = glob_loop-ends s p in
    unfold match_glob in
    rw (ended, match_glob)
      (glob_loop-Right (glob_fuel s p) (glob p s) s p none (plain, lacks, refl) b ended)
