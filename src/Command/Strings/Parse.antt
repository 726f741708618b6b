-- ===== src/Command/Strings/Parse.antt =====
-- The option loop of `SetCmd`.
use redis_like.Base.{
  ◌≡◌, refl, Bool, true, false, Option, none, some, List, [], ◌∷◌, Bytes, codes, same, upper,
  if◌then◌else◌, ℤ, pos, leb_ℤ, scale, wrap,
}
use redis_like.Text.{parse_int}

pub data ExpiryMode : Type 0 where
  without_expiry by_seconds by_ms : ExpiryMode

pub record Options : Type 0 where
  pub expiry_mode : ExpiryMode
  pub expiry_ms : ℤ
  pub nx : Bool
  pub xx : Bool

abbrev pub no_options : Options
no_options = record { expiry_mode = without_expiry; expiry_ms = pos 0; nx = false; xx = false }

-- the options, or the message of the error
pub data Parsed : Type 0 where
  ok : Options → Parsed
  err : Bytes → Parsed

pub data OptionWord : Type 0 where
  word_nx word_xx word_ex word_px other : OptionWord

-- the comparisons of the upper-cased word
unfoldable pub option_word : Bytes → OptionWord
unfolding same upper
option_word opt =
    let w = upper opt in
    if same w (codes "NX")
    then word_nx
    else if same w (codes "XX")
    then word_xx
    else if same w (codes "EX")
    then word_ex
    else if same w (codes "PX")
    then word_px
    else other

abbrev pub syntax_error : Bytes
syntax_error = codes "ERR syntax error"

abbrev pub invalid_expire : Bytes
invalid_expire = codes "ERR invalid expire time in 'SET'"

-- `v && *v > 0`
unfoldable pub positive : Bytes → Option ℤ
unfolding parse_int
positive s = elim (parse_int s) [ none ↦ none | some v ↦ if leb_ℤ v (pos 0) then none else some v ]

-- EX keeps its number times 1000, in `int64_t`
abbrev pub in_ms : ℤ → ℤ
in_ms v = wrap (scale 1000 v)

unfoldable pub parse_options : List Bytes → Options → Parsed
unfolding option_word positive scale wrap
parse_options [] o = ok o
parse_options (opt ∷ []) o = elim (option_word opt) [
  | word_nx ↦ ok (record o { nx = true })
  | word_xx ↦ ok (record o { xx = true })
  | _ ↦ err syntax_error
]
parse_options (opt ∷ arg ∷ rest) o = elim (option_word opt) [
  | word_nx ↦ parse_options (arg ∷ rest) (record o { nx = true })
  | word_xx ↦ parse_options (arg ∷ rest) (record o { xx = true })
  | word_ex ↦ elim (positive arg) [
    | none ↦ err invalid_expire
    | some v ↦ parse_options rest (record o { expiry_mode = by_seconds; expiry_ms = in_ms v })
  ]
  | word_px ↦ elim (positive arg) [
    | none ↦ err invalid_expire
    | some v ↦ parse_options rest (record o { expiry_mode = by_ms; expiry_ms = v })
  ]
  | other ↦ err syntax_error
]

px_and_nx :
    parse_options (codes "px" ∷ codes "1500" ∷ codes "nx" ∷ []) no_options
    ≡ ok (record { expiry_mode = by_ms; expiry_ms = pos 1500; nx = true; xx = false })
unfolding parse_options
px_and_nx = refl
