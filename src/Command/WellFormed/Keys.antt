-- ===== src/Command/WellFormed/Keys.antt =====
-- The string and key commands of src/command/string_cmd.cpp keep a keyspace well-formed.
use redis_like.Base.{
  ℕ, ◌≡◌, Bool, true, false, not, ◌&&◌, some, List, [], ◌∷◌, Bytes, if◌then◌else◌, inl, inr,
  Bool-cases, Option-cases, ℤ, pos, ltb_ℤ, find,
}
use redis_like.Text.{parse_int}
use redis_like.Object.{RedisObject, create_string, is_expired}
use redis_like.Dict
use redis_like.Dict.{Dict}
use redis_like.Expire.{after_ms, after_seconds, set_expire, remove_expire}
use redis_like.Command.Context.{check_expire}
use redis_like.Command.Strings.Parse.{
  Options, Parsed, ExpiryMode, no_options, parse_options, ok, err, without_expiry, by_seconds,
  by_ms,
}
use redis_like.Command.Strings.{set_cmd, get_cmd, set_with, new_string}
use redis_like.Command.Keys.{
  del_keys, del_cmd, exists_keys, exists_cmd, expire_with, expire_cmd, ttl_cmd, pexpire_cmd,
  pttl_cmd, type_cmd, matching, keys_cmd,
}
use redis_like.Command.WellFormed.Typed.{if-IsWell, number-IsWell}
use redis_like.Command.WellFormed.{
  IsWellValue, IsWell, Keeps, IsWell-but, set-IsWell, del-IsWell, check_expire-IsWell,
}

set_expiry-value :
    (val : Bytes) (mode : ExpiryMode) (o : Options) (now : ℤ)
    → IsWellValue (new_string val (record o { expiry_mode = mode }) now).value
unfolding new_string create_string set_expire
set_expiry-value val without_expiry o now = tt
set_expiry-value val by_seconds o now = tt
set_expiry-value val by_ms o now = tt

set_with-IsWell :
    (key val : Bytes) (o : Options) (now : ℤ) (db : Dict)
    → IsWell db
    → IsWell (set_with key val o now db).1
unfolding set_with
set_with-IsWell key val o now db w =
    let db₁ = check_expire db key now in
    let w' = check_expire-IsWell db key now w in
    if-IsWell (o.nx && o.xx) _ _ w (
      if-IsWell (o.nx && Dict.exists db₁ key) _ _ w' (
        if-IsWell (o.xx && not (Dict.exists db₁ key)) _ _ w' (
          set-IsWell db₁ key (new_string val o now) (set_expiry-value val o.expiry_mode o now)
            (IsWell-but key db₁ w'))))

-- options, or an error
parsed-IsWell :
    (p : Parsed) (reply : Bytes → Bytes) (f : Options → Bytes × Dict) (db : Dict)
    → IsWell db
    → ((o : Options) → IsWell (f o).1)
    → IsWell (elim p as (λ _. Bytes × Dict) [ err msg ↦ (reply msg, db) | ok o ↦ f o ]).1
parsed-IsWell (ok o) reply f db w h = h o
parsed-IsWell (err msg) reply f db w h = w

pub set_cmd-Keeps : Keeps set_cmd
unfolding set_cmd
set_cmd-Keeps [] now db w = w
set_cmd-Keeps (key ∷ []) now db w = w
set_cmd-Keeps (key ∷ val ∷ opts) now db w =
    parsed-IsWell (parse_options opts no_options) _ (λ o. set_with key val o now db) db w
      (λ o. set_with-IsWell key val o now db w)

pub get_cmd-Keeps : Keeps get_cmd
unfolding get_cmd
get_cmd-Keeps [] now db w = w
get_cmd-Keeps (key ∷ _) now db w = check_expire-IsWell db key now w

del_keys-IsWell :
    (keys : List Bytes) (count : ℕ) (db : Dict) → IsWell db → IsWell (del_keys count keys db).1
unfolding del_keys
del_keys-IsWell [] count db w = w
del_keys-IsWell (key ∷ keys) count db w =
    del_keys-IsWell keys _ (Dict.del db key).1 (del-IsWell db key (IsWell-but key db w))

pub del_cmd-Keeps : Keeps del_cmd
unfolding del_cmd
del_cmd-Keeps [] now db w = w
del_cmd-Keeps (key ∷ keys) now db w = del_keys-IsWell (key ∷ keys) 0 db w

exists_keys-IsWell :
    (keys : List Bytes) (count : ℕ) (now : ℤ) (db : Dict)
    → IsWell db
    → IsWell (exists_keys count keys now db).1
unfolding exists_keys
exists_keys-IsWell [] count now db w = w
exists_keys-IsWell (key ∷ keys) count now db w =
    exists_keys-IsWell keys _ now (check_expire db key now) (check_expire-IsWell db key now w)

pub exists_cmd-Keeps : Keeps exists_cmd
unfolding exists_cmd
exists_cmd-Keeps [] now db w = w
exists_cmd-Keeps (key ∷ keys) now db w = exists_keys-IsWell (key ∷ keys) 0 now db w

-- a new time leaves the value
expired-IsWell :
    (positive : Bool) (key : Bytes) (until : ℤ) (db : Dict) (obj : RedisObject)
    → IsWell db
    → find key db ≡ some obj
    → IsWell (
        if positive
        then Dict.set db key (set_expire obj until)
        else (Dict.del (Dict.set db key (remove_expire obj)) key).1)
unfolding set_expire remove_expire
expired-IsWell true key until db obj w e =
    set-IsWell db key (set_expire obj until) (w.objects key obj e) (IsWell-but key db w)
expired-IsWell false key until db obj w e =
    let cleared = Dict.set db key (remove_expire obj) in
    del-IsWell cleared key (
      IsWell-but key cleared
        (set-IsWell db key (remove_expire obj) (w.objects key obj e) (IsWell-but key db w)))

expire_with-IsWell :
    (key : Bytes) (n until now : ℤ) (db : Dict)
    → IsWell db
    → IsWell (expire_with key n until now db).1
unfolding expire_with Dict.get
expire_with-IsWell key n until now db w =
    let db₁ = check_expire db key now in
    let w' = check_expire-IsWell db key now w in
    elim (Option-cases (find key db₁)) [
      | inl e ↦ rw (expire_with, e) w'
      | inr (obj, e) ↦ rw (expire_with, e) (expired-IsWell (ltb_ℤ (pos 0) n) key until db₁ obj w' e)
    ]

pub expire_cmd-Keeps : Keeps expire_cmd
unfolding expire_cmd
expire_cmd-Keeps [] now db w = w
expire_cmd-Keeps (key ∷ []) now db w = w
expire_cmd-Keeps (key ∷ secs ∷ _) now db w =
    number-IsWell (parse_int secs) _ (λ n. expire_with key n (after_seconds now n) now db) db w
      (λ n. expire_with-IsWell key n (after_seconds now n) now db w)

pub pexpire_cmd-Keeps : Keeps pexpire_cmd
unfolding pexpire_cmd
pexpire_cmd-Keeps [] now db w = w
pexpire_cmd-Keeps (key ∷ []) now db w = w
pexpire_cmd-Keeps (key ∷ ms ∷ _) now db w =
    number-IsWell (parse_int ms) _ (λ n. expire_with key n (after_ms now n) now db) db w
      (λ n. expire_with-IsWell key n (after_ms now n) now db w)

pub ttl_cmd-Keeps : Keeps ttl_cmd
unfolding ttl_cmd
ttl_cmd-Keeps [] now db w = w
ttl_cmd-Keeps (key ∷ _) now db w = check_expire-IsWell db key now w

pub pttl_cmd-Keeps : Keeps pttl_cmd
unfolding pttl_cmd
pttl_cmd-Keeps [] now db w = w
pttl_cmd-Keeps (key ∷ _) now db w = check_expire-IsWell db key now w

pub type_cmd-Keeps : Keeps type_cmd
unfolding type_cmd
type_cmd-Keeps [] now db w = w
type_cmd-Keeps (key ∷ _) now db w = check_expire-IsWell db key now w

matching-IsWell :
    (pattern : Bytes) (keys : List Bytes) (now : ℤ) (db : Dict)
    → IsWell db
    → IsWell (matching pattern keys now db).1
unfolding matching
matching-IsWell pattern [] now db w = w
matching-IsWell pattern (key ∷ keys) now db w = elim (Option-cases (Dict.get db key)) [
  | inl e ↦ rw (matching, e) (matching-IsWell pattern keys now db w)
  | inr (obj, e) ↦ elim (Bool-cases (is_expired obj now)) [
    | inl t ↦
        rw (matching, e, t)
          (matching-IsWell pattern keys now (Dict.del db key).1
            (del-IsWell db key (IsWell-but key db w)))
    | inr t ↦ rw (matching, e, t) (matching-IsWell pattern keys now db w)
  ]
]

pub keys_cmd-Keeps : Keeps keys_cmd
unfolding keys_cmd
keys_cmd-Keeps [] now db w = w
keys_cmd-Keeps (pattern ∷ _) now db w = matching-IsWell pattern (Dict.keys db) now db w
