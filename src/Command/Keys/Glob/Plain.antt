-- ===== src/Command/Keys/Glob/Plain.antt =====
-- A matcher by recursion on the pattern, for patterns with no class: what `MatchGlob` of
-- src/command/string_cmd.cpp is compared with.
use redis_like.Base.{
  ℕ, ◌≡◌, refl, Bool, true, false, ◌||◌, ◌&&◌, [], ◌∷◌, arith, Bytes, ◌==◌, if◌then◌else◌,
  Bool-cases, inl, inr, All, is_empty,
}
use redis_like.Command.Keys.Glob.{only_stars}

-- some end of the text is accepted
unfoldable pub some_end : (Bytes → Bool) → Bytes → Bool
some_end accepts [] = accepts []
some_end accepts (c ∷ s) = accepts (c ∷ s) || some_end accepts s

-- the byte `x` of the pattern, before a rest that is accepted as `accepts` says
unfoldable pub glob_byte : ℕ → (Bytes → Bool) → Bytes → Bool
glob_byte x accepts [] = false
glob_byte x accepts (c ∷ s) = (x == b'?' || x == c) && accepts s

-- `?` takes a byte, `*` takes any number of bytes, and any other byte takes itself.
unfoldable pub glob : Bytes → Bytes → Bool
glob [] s = is_empty s
glob (x ∷ p) s = if x == b'*' then some_end (glob p) s else glob_byte x (glob p) s

-- a pattern with no class, and a text with no asterisk
abbrev pub IsPlain : Bytes → Type 0
IsPlain = All (λ x. (x == b'[') ≡ false)

abbrev pub LacksStar : Bytes → Type 0
LacksStar = All (λ c. (c == b'*') ≡ false)

pub glob-star : (x : ℕ) (p s : Bytes) → (x == b'*') ≡ true → glob (x ∷ p) s ≡ some_end (glob p) s
unfolding glob
glob-star x p s e = rw e

pub glob-byte :
    (x : ℕ) (p s : Bytes) → (x == b'*') ≡ false → glob (x ∷ p) s ≡ glob_byte x (glob p) s
unfolding glob
glob-byte x p s e = rw e

pub some_end_head : (f : Bytes → Bool) (s : Bytes) → f s ≡ true → some_end f s ≡ true
unfolding some_end
some_end_head f [] h = h
some_end_head f (c ∷ s) h = ground arith

pub some_end_twice : (f : Bytes → Bool) (s : Bytes) → some_end (some_end f) s ≡ some_end f s
unfolding some_end
some_end_twice f [] = refl
some_end_twice f (c ∷ s) = ground (arith, some_end_twice f s)

pub only_stars-glob : (p : Bytes) → only_stars p ≡ glob p []
unfolding only_stars some_end glob_byte
only_stars-glob [] = unfold glob in refl
only_stars-glob (x ∷ p) = elim (Bool-cases (x == b'*')) [
  | inl e ↦ rw (e, glob-star x p [] e) (only_stars-glob p)
  | inr e ↦ rw (e, glob-byte x p [] e)
]

-- an end of the text that begins with the byte of the pattern has an end behind that byte
pub some_end_behind :
    (x : ℕ) (p : Bytes) (c : ℕ) (s : Bytes)
    → (x == b'*') ≡ false
    → some_end (glob (x ∷ p)) (c ∷ s) ≡ true
    → some_end (glob p) s ≡ true
unfolding some_end glob_byte
some_end_behind x p c [] e h =
    some_end_head (glob p) [] (ground (arith, glob-byte x p (c ∷ []) e, glob-byte x p [] e))
some_end_behind x p c (d ∷ s) e h =
    ground (
      arith,
      glob-byte x p (c ∷ d ∷ s) e,
      some_end_behind x p d s e,
      some_end_head (glob p) (d ∷ s),
    )
