-- ===== src/Resp.antt =====
-- src/resp_codec.h and src/resp_codec.cpp: the writers of replies and commands, and `Feed`, the
-- reader of commands. A position in `read_buf_` is the text that follows it.
pub mod Rounds
pub mod Chunks
pub mod RoundTrip
pub mod Sizes
pub mod Malformed
use redis_like.Base.{
  ℕ, zero, suc, ◌+◌, ◌≡◌, refl, Bool, true, false, ◌&&◌, ◌||◌, Option, none, some, List, [], ◌∷◌,
  ◌++◌, ltb, leb, ◌==◌, if◌then◌else◌, Bytes, codes, ℤ, pos, negsuc, pos_part, leb_ℤ, ltb_ℤ, length,
  take, drop,
}
use redis_like.Text.{print_ℕ, to_string, strtoll_or_zero}

pub record RespCommand : Type 0 where
  pub name : Bytes
  pub args : List Bytes

-- \r\n
abbrev pub crlf : Bytes
crlf = 13 ∷ 10 ∷ []

unfoldable pub simple_string : Bytes → Bytes
simple_string s = b'+' ∷ (s ++ crlf)

unfoldable pub error : Bytes → Bytes
error msg = b'-' ∷ (msg ++ crlf)

unfoldable pub integer : ℤ → Bytes
unfolding to_string
integer n = b':' ∷ (to_string n ++ crlf)

unfoldable pub bulk_string : Bytes → Bytes
unfolding print_ℕ
bulk_string s = b'$' ∷ (print_ℕ (length s) ++ (crlf ++ (s ++ crlf)))

unfoldable pub null_bulk_string : Bytes
null_bulk_string = codes "$-1\r\n"

-- the items one behind the other
unfoldable pub concat : List Bytes → Bytes
concat [] = []
concat (item ∷ items) = item ++ concat items

unfoldable pub array : List Bytes → Bytes
unfolding print_ℕ concat
array items = b'*' ∷ (print_ℕ (length items) ++ (crlf ++ concat items))

unfoldable pub null_array : Bytes
null_array = codes "*-1\r\n"

unfoldable pub ok_reply : Bytes
unfolding simple_string
ok_reply = simple_string (codes "OK")

unfoldable pub pong : Bytes
unfolding bulk_string
pong = bulk_string (codes "PONG")

unfoldable pub empty_array : Bytes
unfolding array
empty_array = array []

-- `ReadLine`: the bytes before the first \r\n, and the text behind it
unfoldable pub read_line : Bytes → Option (Bytes × Bytes)
read_line [] = none
read_line (c ∷ []) = none
read_line (c ∷ d ∷ s) =
    let more : Option (Bytes × Bytes) = elim (read_line (d ∷ s)) [
      | none ↦ none
      | some (line, rest) ↦ some (c ∷ line, rest)
    ] in
    if c == 13 && d == 10 then some ([], s) else more

-- the \r\n behind a token is skipped if it is there
unfoldable pub skip_crlf : Bytes → Bytes
skip_crlf [] = []
skip_crlf (c ∷ []) = c ∷ []
skip_crlf (c ∷ d ∷ s) = if c == 13 && d == 10 then s else c ∷ d ∷ s

-- `if (bulk_len < 0) bulk_len = 0`
unfoldable pub bulk_len : Bytes → ℕ
unfolding strtoll_or_zero
bulk_len line = pos_part (strtoll_or_zero line)

-- the token of `n` bytes and what follows it; `none` if the buffer ends before its \r\n could
unfoldable pub read_token : ℕ → Bytes → Option (Bytes × Bytes)
unfolding skip_crlf
read_token n s = if ltb (length s) (n + 2) then none else some (take n s, skip_crlf (drop n s))

-- One round of the `for` loop of `Feed`: `$`, a length line and a token. `none` is `ok = false`.
unfoldable pub read_bulk : Bytes → Option (Bytes × Bytes)
unfolding read_line bulk_len read_token
read_bulk [] = none
read_bulk (c ∷ s) =
    if c == b'$'
    then (elim (read_line s) [ none ↦ none | some (line, rest) ↦ read_token (bulk_len line) rest ])
    else none

-- the `for` loop, `n` rounds from the end
unfoldable pub read_bulks : ℕ → Bytes → Option (List Bytes × Bytes)
unfolding read_bulk
read_bulks zero s = some ([], s)
read_bulks (suc n) s = elim (read_bulk s) [
  | none ↦ none
  | some (token, rest) ↦ elim (read_bulks n rest) [
    | none ↦ none
    | some (tokens, rest') ↦ some (token ∷ tokens, rest')
  ]
]

-- the token at index 0 is the name, the others are the arguments
unfoldable pub to_command : List Bytes → RespCommand
to_command [] = record { name = []; args = [] }
to_command (name ∷ args) = record { name = name; args = args }

-- What a round of the `while` loop of `Feed` does at its position: it breaks off and waits for
-- more bytes, it goes on at a later position, or it goes on there with a command read.
pub data Round : Type 0 where
  wait : Round
  skip : Bytes → Round
  emit : RespCommand → Bytes → Round

-- the count of an array header, refused at 0 or less and above 256
unfoldable pub array_len : Bytes → Option ℕ
unfolding strtoll_or_zero
array_len line =
    let n = strtoll_or_zero line in
    if leb_ℤ n (pos 0) || ltb_ℤ (pos 256) n then none else some (pos_part n)

unfoldable pub read_command : ℕ → Bytes → Round
unfolding read_bulks to_command
read_command n s = elim (read_bulks n s) [
  | none ↦ wait
  | some (tokens, rest) ↦ emit (to_command tokens) rest
]

unfoldable pub read_array : Bytes → Round
unfolding read_line array_len read_command
read_array s = elim (read_line s) [
  | none ↦ wait
  | some (line, rest) ↦ elim (array_len line) [ none ↦ skip rest | some n ↦ read_command n rest ]
]

-- at the end of the buffer the loop stops, as it does when it waits
unfoldable pub round : Bytes → Round
unfolding read_array
round [] = wait
round (c ∷ s) = if c == b'*' then read_array s else skip s

-- the rest of the loop behind a round at `buf`
unfoldable pub after_round :
    (Bytes → List RespCommand × Bytes) → Bytes → Round → List RespCommand × Bytes
after_round next buf wait = ([], buf)
after_round next buf (skip s) = next s
after_round next buf (emit cmd s) = let (cmds, rest) = next s in (cmd ∷ cmds, rest)

-- The loop, with a bound on its rounds: the commands and what is left of the buffer.
unfoldable pub feed_loop : ℕ → Bytes → List RespCommand × Bytes
unfolding round after_round
feed_loop zero buf = ([], buf)
feed_loop (suc fuel) buf = after_round (feed_loop fuel) buf (round buf)

-- `Feed`: the bytes are appended to `read_buf_`, and what has been read is erased from it. Each
-- round of the loop drops a byte at least, so the length of the buffer bounds the rounds.
unfoldable pub feed : Bytes → Bytes → List RespCommand × Bytes
unfolding feed_loop
feed read_buf bytes = feed_loop (length (read_buf ++ bytes)) (read_buf ++ bytes)

pipelined : feed [] (codes "*1\r\n$4\r\nPING\r\nx*2\r\n$3\r\nGET\r\n$1\r\nk\r\n*3\r\n$3") ≡ (
  record { name = codes "PING"; args = [] }
      ∷ record { name = codes "GET"; args = codes "k" ∷ [] }
      ∷ [],
  codes "*3\r\n$3",
)
unfolding feed
pipelined = refl
