-- ===== src/Command/Strings/Laws.antt =====
-- SET and GET against what a client can see of the keyspace.
use redis_like.Base.{
  ℕ, ◌+◌, ◌*◌, ◌^◌, ◌<◌, ◌≡◌, ◌∙◌, ap, Bool, false, not, ◌&&◌, some, List, [], ◌∷◌, arith, Bytes,
  codes, same, same_refl, if◌then◌else◌, ℤ, pos, is_some, ltb,
}
use redis_like.Resp.{error, null_bulk_string, bulk_string, ok_reply}
use redis_like.Object.{create_string, is_expired}
use redis_like.Dict.{Dict}
use redis_like.Expire.{set_expire}
use redis_like.Expire.Times.{after_ms-pos}
use redis_like.Expire.View.{live, view}
use redis_like.Text.{to_string}
use redis_like.Text.RoundTrip.{parse_int-to_string}
use redis_like.Command.Context.{check_expire}
use redis_like.Command.Views.{view-check_expire, get-check_expire, exists-check_expire, view-set}
use redis_like.Command.Strings.Parse.{
  Options, no_options, option_word, positive, by_ms, parse_options, ok,
}
use redis_like.Command.Strings.{new_string, set_with, set_cmd, get_reply, get_cmd}

-- GET replies by what is seen at its time.
pub reply-get_cmd :
    (key : Bytes) (rest : List Bytes) (now : ℤ) (db : Dict)
    → (get_cmd (key ∷ rest) now db).0 ≡ get_reply (view db now key)
unfolding get_cmd
reply-get_cmd key rest now db = ap get_reply (get-check_expire db key now)

pub view-get_cmd :
    (key j : Bytes) (rest : List Bytes) (now : ℤ) (db : Dict)
    → view (get_cmd (key ∷ rest) now db).1 now j ≡ view db now j
unfolding get_cmd
view-get_cmd key j rest now db = view-check_expire db key j now

-- what SET requires of the key with its options
abbrev pub granted : Options → Bool → Bool
granted o present = not (o.nx && o.xx) && not (o.nx && present) && not (o.xx && not present)

abbrev pub set_reply : Options → Bool → Bytes
set_reply o present =
    if o.nx && o.xx
    then error (codes "ERR NX and XX options are mutually exclusive")
    else if granted o present
    then ok_reply
    else null_bulk_string

-- SET refuses NX and XX together with an error; else it writes exactly if the one that is given
-- allows it for the object that is seen, an expired one counting as missing, and replies so. It
-- changes nothing that is seen under another key.
pub set_with_lem :
    (key j val : Bytes) (o : Options) (now : ℤ) (db : Dict)
    → ((set_with key val o now db).0 ≡ set_reply o (is_some (view db now key)))
      × (view (set_with key val o now db).1 now j ≡ (
          if granted o (is_some (view db now key)) && same key j
          then live now (some (new_string val o now))
          else view db now j))
unfolding set_with
set_with_lem key j val o now db =
    let db₁ = check_expire db key now in
    let seen = exists-check_expire db key now in
    let kept = view-check_expire db key j now in
    let written = view-set db₁ key j (new_string val o now) now in
    (ground (arith, seen), ground (arith, seen, kept, written))

-- SET without options, and GET of the same key at any time
get-set_cmd-plain :
    (key val : Bytes) (now now' : ℤ) (db : Dict)
    → (get_cmd (key ∷ []) now' (set_cmd (key ∷ val ∷ []) now db).1).0 ≡ bulk_string val
get-set_cmd-plain key val now now' db =
    reply-get_cmd key [] now' _
    ∙ unfold set_cmd parse_options set_with new_string create_string in
      rw view-set (unfold is_expired get_reply in rw (same_refl key))

abbrev px : ℤ → Options
px ms = record { expiry_mode = by_ms; expiry_ms = ms; nx = false; xx = false }

positive-to_string : (n : ℕ) → 0 < n → n < 2 ^ 63 → positive (to_string (pos n)) ≡ some (pos n)
unfolding positive
positive-to_string n h k =
    rw (parse_int-to_string (pos n) (k, omega arith), positive) (ground arith)

parse-px :
    (ms : ℕ)
    → 0 < ms
    → ms < 2 ^ 63
    → parse_options (codes "PX" ∷ to_string (pos ms) ∷ []) no_options ≡ ok (px (pos ms))
unfolding parse_options option_word
parse-px ms h k = rw (positive-to_string ms h k, parse_options)

-- SET with PX, and GET of the same key
get-set_cmd-px :
    (key val : Bytes) (ms t t' : ℕ) (db : Dict)
    → 0 < ms
    → t + 1_000_000 * ms < 2 ^ 63
    → (get_cmd
        (key ∷ [])
        (pos t')
        (set_cmd (key ∷ val ∷ codes "PX" ∷ to_string (pos ms) ∷ []) (pos t) db).1).0
      ≡ (if ltb t' (t + 1_000_000 * ms) then bulk_string val else null_bulk_string)
get-set_cmd-px key val ms t t' db h fits =
    reply-get_cmd key [] (pos t') _
    ∙ unfold set_cmd in
      rw (parse-px ms h (omega arith), set_cmd)
        (unfold set_with new_string create_string set_expire in
          rw (after_ms-pos t ms fits, view-set)
            (rw (same_refl key) (unfold get_reply is_expired in ground arith)))

-- GET of a key at a time t' after SET of it: without options, whenever that was, the value; with PX and
-- a positive number at time t, the value exactly while t' is before t plus the milliseconds, if that
-- time is an `int64_t` of nanoseconds.
pub get-set_cmd :
    (key val : Bytes) (ms t t' : ℕ) (now : ℤ) (db : Dict)
    → 0 < ms
    → t + 1_000_000 * ms < 2 ^ 63
    → ((get_cmd (key ∷ []) (pos t') (set_cmd (key ∷ val ∷ []) now db).1).0 ≡ bulk_string val)
      × ((get_cmd
            (key ∷ [])
            (pos t')
            (set_cmd (key ∷ val ∷ codes "PX" ∷ to_string (pos ms) ∷ []) (pos t) db).1).0
          ≡ (if ltb t' (t + 1_000_000 * ms) then bulk_string val else null_bulk_string))
get-set_cmd key val ms t t' now db h fits =
    (get-set_cmd-plain key val now (pos t') db, get-set_cmd-px key val ms t t' db h fits)
