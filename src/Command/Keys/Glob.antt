-- ===== src/Command/Keys/Glob.antt =====
-- `MatchGlob` of src/command/string_cmd.cpp. An index into the text or the pattern is what is left
-- of it from there on; `starIdx` and `matchIdx` are the saved pair.
pub mod Ends
pub mod Plain
pub mod Agrees
pub mod Misses
use redis_like.Base.{
  ℕ, zero, suc, ◌+◌, ◌*◌, ◌%◌, ◌≡◌, refl, Bool, true, false, not, ◌&&◌, ◌||◌, Option, none, some,
  List, [], ◌∷◌, Bytes, codes, leb, ◌==◌, if◌then◌else◌, length, drop,
}

-- `pattern.find(']', pi)`: what stands before the bracket, and what follows it
unfoldable pub find_close : Bytes → Option (Bytes × Bytes)
find_close [] = none
find_close (c ∷ p) =
    let more : Option (Bytes × Bytes) = elim (find_close p) [
      | none ↦ none
      | some (body, rest) ↦ some (c ∷ body, rest)
    ] in
    if c == b']' then some ([], p) else more

-- `char` is signed: the bytes from 128 on are negative
abbrev char_le : ℕ → ℕ → Bool
char_le a b = leb ((a + 128) % 256) ((b + 128) % 256)

-- the loop over the body of a class; `x-z` is a range if three bytes are left of the body
unfoldable pub in_class : ℕ → Bytes → Bool
in_class c [] = false
in_class c (x ∷ []) = x == c
in_class c (x ∷ y ∷ []) = x == c || y == c
in_class c (x ∷ y ∷ z ∷ p) =
    let behind_range = in_class c p in
    let behind_byte = in_class c (y ∷ z ∷ p) in
    if y == b'-'
    then (if char_le x c && char_le c z then true else behind_range)
    else if x == c
    then true
    else behind_byte

-- the body of a class, with its `^`
unfoldable pub class_matches : ℕ → Bytes → Bool
unfolding in_class
class_matches c [] = false
class_matches c (x ∷ body) = if x == b'^' then not (in_class c body) else in_class c (x ∷ body)

-- What a round of the loop does at a byte of the text: it goes on behind the byte, it saves a star
-- with the rest of the pattern, it goes back to the saved star, or it returns false.
pub data Move : Type 0 where
  advance : Bytes → Move
  save : Bytes → Move
  retry : Bytes → Bytes → Move
  fail : Move

-- The branch for `[`, with the pattern behind it. It is reached with no star saved only, so that its
-- own way back to a star is dead.
unfoldable pub class_move : ℕ → Bytes → Move
unfolding find_close class_matches
class_move c p = elim (find_close p) [
  | none ↦ if c == b'[' then advance p else fail
  | some (body, rest) ↦ if class_matches c body then advance rest else fail
]

-- the pattern behind the last star, and the text from which it was last tried
abbrev pub Saved : Type 0
Saved = Option (Bytes × Bytes)

unfoldable pub glob_move : ℕ → Bytes → Saved → Move
unfolding class_move
glob_move c [] none = fail
glob_move c [] (some (bp, bs)) = retry bp (drop 1 bs)
glob_move c (x ∷ p) none =
    if x == b'?' || x == c
    then advance p
    else if x == b'*'
    then save p
    else if x == b'['
    then class_move c p
    else fail
glob_move c (x ∷ p) (some (bp, bs)) =
    if x == b'?' || x == c then advance p else if x == b'*' then save p else retry bp (drop 1 bs)

-- `while (pi < pattern.size() && pattern[pi] == '*') ++pi; return pi == pattern.size();`
unfoldable pub only_stars : Bytes → Bool
only_stars [] = true
only_stars (x ∷ p) = x == b'*' && only_stars p

-- the rest of the loop behind a move at the text `s`, which begins with a byte `c` before `rest`
unfoldable pub after_move :
    (Bytes → Bytes → Saved → Option Bool) → ℕ → Bytes → Saved → Move → Option Bool
after_move next c rest saved (advance p) = next rest p saved
after_move next c rest saved (save p) = next (c ∷ rest) p (some (p, c ∷ rest))
after_move next c rest saved (retry bp bs) = next bs bp (some (bp, bs))
after_move next c rest saved fail = some false

-- the loop; `none` means that the fuel ran out
unfoldable pub glob_loop : ℕ → Bytes → Bytes → Saved → Option Bool
unfolding glob_move only_stars after_move
glob_loop zero s p saved = none
glob_loop (suc fuel) [] p saved = some (only_stars p)
glob_loop (suc fuel) (c ∷ s) p saved = after_move (glob_loop fuel) c s saved (glob_move c p saved)

-- enough rounds for the text and the pattern
abbrev pub glob_fuel : Bytes → Bytes → ℕ
glob_fuel s p = length s * suc (length p) + suc (length p)

unfoldable pub match_glob : Bytes → Bytes → Bool
unfolding glob_loop
match_glob s p = elim (glob_loop (glob_fuel s p) s p none) [ none ↦ false | some b ↦ b ]

star_and_class : match_glob (codes "user:b7") (codes "u?er:[a-c]*") ≡ true
unfolding match_glob
star_and_class = refl
