-- ===== src/Command/Keys/Glob/Misses.antt =====
-- Texts that `MatchGlob` refuses although its pattern describes them.
use redis_like.Base.{ℕ, zero, suc, ◌≡◌, Bool, false, none, some, [], ◌∷◌, arith, Bytes, ◌==◌, All}
use redis_like.Command.Keys.Glob.{glob_loop, glob_fuel, match_glob}
use redis_like.Command.Keys.Glob.Ends.{glob_loop-ends}

-- bytes that are neither `[` nor `*`
abbrev pub IsOrdinary : Bytes → Type 0
IsOrdinary = All (λ c. ((c == b'[') ≡ false) × ((c == b'*') ≡ false))

-- with a star saved before a class, no round gets past the class
stuck_at_class :
    (f : ℕ) (s p : Bytes) (b : Bool)
    → IsOrdinary s
    → glob_loop f s (b'[' ∷ p) (some (b'[' ∷ p, s)) ≡ some b
    → b ≡ false
unfolding glob_loop
stuck_at_class zero s p b h e = cc
stuck_at_class (suc f) [] p b h e = ground arith
stuck_at_class (suc f) (c ∷ s) p b h e = ground (arith, stuck_at_class f s p b h.1)

class_behind_star :
    (f : ℕ) (s p : Bytes) (b : Bool)
    → IsOrdinary s
    → glob_loop f s (b'*' ∷ b'[' ∷ p) none ≡ some b
    → b ≡ false
unfolding glob_loop
class_behind_star zero s p b h e = cc
class_behind_star (suc f) [] p b h e = ground arith
class_behind_star (suc f) (c ∷ s) p b h e = ground (arith, stuck_at_class f (c ∷ s) p b h)

asterisk_taken :
    (f c : ℕ) (s : Bytes) (b : Bool)
    → (c == b'*') ≡ false
    → glob_loop f (b'*' ∷ c ∷ s) (b'*' ∷ []) none ≡ some b
    → b ≡ false
unfolding glob_loop
asterisk_taken zero c s b h e = cc
asterisk_taken (suc zero) c s b h e = ground arith
asterisk_taken (suc (suc f)) c s b h e = ground arith

-- the answer of the loop, at any fuel, is that of `MatchGlob`
match_glob-false :
    (s p : Bytes)
    → ((f : ℕ) (b : Bool) → glob_loop f s p none ≡ some b → b ≡ false)
    → match_glob s p ≡ false
match_glob-false s p never =
    let (b, ended) = glob_loop-ends s p in
    unfold match_glob in rw (ended, match_glob) (never (glob_fuel s p) b ended)

star_before_class : (s p : Bytes) → IsOrdinary s → match_glob s (b'*' ∷ b'[' ∷ p) ≡ false
star_before_class s p h = match_glob-false s (b'*' ∷ b'[' ∷ p) (λ f b. class_behind_star f s p b h)

star_at_asterisk :
    (c : ℕ) (s : Bytes) → (c == b'*') ≡ false → match_glob (b'*' ∷ c ∷ s) (b'*' ∷ []) ≡ false
star_at_asterisk c s h =
    match_glob-false (b'*' ∷ c ∷ s) (b'*' ∷ []) (λ f b. asterisk_taken f c s b h)

-- A class behind a star is never tried: a pattern that begins with `*[` matches no text without `[`
-- and `*`, whatever the class holds and whatever follows it. And an asterisk of the text takes a star
-- for itself: the pattern `*` refuses every text that begins with an asterisk and goes on with another
-- byte.
pub stars_miss :
    (s p : Bytes) (c : ℕ) (t : Bytes)
    → IsOrdinary s
    → (c == b'*') ≡ false
    → (match_glob s (b'*' ∷ b'[' ∷ p) ≡ false) × (match_glob (b'*' ∷ c ∷ t) (b'*' ∷ []) ≡ false)
stars_miss s p c t h e = (star_before_class s p h, star_at_asterisk c t e)
