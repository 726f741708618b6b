-- ===== src/Command/WellFormed/Hashes.antt =====
-- The hash commands of src/command/hash_cmd.cpp keep a keyspace well-formed.
use redis_like.Base.{
  ℕ, ◌%◌, ◌≡◌, refl, false, not, ◌||◌, List, [], ◌∷◌, Bytes, if◌then◌else◌, ltb, ◌==◌, arith, inl,
  inr, Bool-cases, ℤ, length, is_empty, Map, put, erase, has, IsDistinct, put-IsDistinct,
  erase-IsDistinct,
}
use redis_like.Object.{hash, as_hash, create_hash}
use redis_like.Dict
use redis_like.Dict.{Dict}
use redis_like.Command.Context.{wrong_type, integer_ℕ, get_typed, get_or_create}
use redis_like.Command.WellFormed.{
  IsWellValue, IsWell, Keeps, store-IsWell, store_or_del-IsWell, check_expire-IsWell,
}
use redis_like.Command.WellFormed.Typed.{
  get_typed-Opened, get_or_create-Opened, elim-IsWell, hash-holds,
}
use redis_like.Command.Hashes.{
  set_fields, set_with, hset_cmd, hget_cmd, erase_all, hdel_cmd, hexists_cmd, entries_with,
  hkeys_cmd, hvals_cmd, hgetall_cmd, hlen_cmd, hstrlen_cmd,
}

-- no field stands twice, and after a field is set the hash is not empty
pub put-some {ℓ} : {V : Type ℓ} (k : Bytes) (v : V) (m : Map V) → is_empty (put k v m) ≡ false
unfolding put
put-some k v [] = refl
put-some k v ((j, w) ∷ m) = ground arith

set_fields-well :
    (pairs : List Bytes) (added : ℕ) (h : Map Bytes)
    → IsDistinct h
    → IsDistinct (set_fields added pairs h).1
      × (is_empty h ≡ false → is_empty (set_fields added pairs h).1 ≡ false)
unfolding set_fields
set_fields-well [] added h d = (d, λ e. e)
set_fields-well (field ∷ []) added h d = (d, λ e. e)
set_fields-well (field ∷ val ∷ rest) added h d =
    let (d', filled) = set_fields-well rest _ (put field val h) (put-IsDistinct field val h d) in
    (d', λ e. filled (put-some field val h))

-- HSET has a field and a value at least
set_fields-hash :
    (key : Bytes) (pairs : List Bytes) (h : Map Bytes)
    → (ltb (length (key ∷ pairs)) 3 || not (length (key ∷ pairs) % 2 == 1)) ≡ false
    → IsDistinct h
    → IsWellValue (hash (set_fields 0 pairs h).1)
unfolding set_fields
set_fields-hash key [] h e d = absurd (ground arith)
set_fields-hash key (field ∷ []) h e d = absurd (ground arith)
set_fields-hash key (field ∷ val ∷ rest) h e d =
    let (d', filled) =
      set_fields-well rest (if has field h then 0 else 1) (put field val h)
        (put-IsDistinct field val h d) in
    (filled (put-some field val h), d')

set_with-IsWell :
    (key : Bytes) (pairs : List Bytes) (now : ℤ) (db : Dict)
    → (ltb (length (key ∷ pairs)) 3 || not (length (key ∷ pairs) % 2 == 1)) ≡ false
    → IsWell db
    → IsWell (set_with key pairs now db).1
unfolding set_with
set_with-IsWell key pairs now db e w =
    let opened =
      get_or_create-Opened as_hash IsDistinct hash-holds create_hash [] db key now tt w in
    let (found, db₁) = get_or_create as_hash create_hash [] db key now in
    elim-IsWell IsDistinct key found db₁ wrong_type
      (λ h.
        let (added, h') = set_fields 0 pairs h in (integer_ℕ added, Dict.store db₁ key (hash h')))
      opened
      (λ h d.
        store-IsWell db₁ key (hash (set_fields 0 pairs h).1) (set_fields-hash key pairs h e d)
          opened.others)

pub hset_cmd-Keeps : Keeps hset_cmd
unfolding hset_cmd
hset_cmd-Keeps [] now db w = w
hset_cmd-Keeps (key ∷ pairs) now db w =
    elim (Bool-cases (ltb (length (key ∷ pairs)) 3 || not (length (key ∷ pairs) % 2 == 1))) [
      | inl e ↦ rw e w
      | inr e ↦ rw e (set_with-IsWell key pairs now db e w)
    ]

pub erase_all-IsDistinct {ℓ} :
    {V : Type ℓ} (fields : List Bytes) (count : ℕ) (h : Map V)
    → IsDistinct h
    → IsDistinct (erase_all count fields h).1
unfolding erase_all
erase_all-IsDistinct [] count h d = d
erase_all-IsDistinct (field ∷ fields) count h d =
    erase_all-IsDistinct fields _ (erase field h) (erase-IsDistinct field h d)

pub hdel_cmd-Keeps : Keeps hdel_cmd
unfolding hdel_cmd
hdel_cmd-Keeps [] now db w = w
hdel_cmd-Keeps (key ∷ []) now db w = w
hdel_cmd-Keeps (key ∷ field ∷ fields) now db w =
    let (opened, w') = get_typed-Opened as_hash IsDistinct hash-holds db key now w in
    let (found, db₁) = get_typed as_hash db key now in
    elim-IsWell IsDistinct key found db₁ _
      (λ h.
        let (count, h') = erase_all 0 (field ∷ fields) h in
        let db₂ = Dict.store db₁ key (hash h') in
        (integer_ℕ count, if is_empty h' then (Dict.del db₂ key).1 else db₂))
      opened
      (λ h d.
        let h' = (erase_all 0 (field ∷ fields) h).1 in
        store_or_del-IsWell (is_empty h') db₁ key (hash h')
          (λ e. (e, erase_all-IsDistinct (field ∷ fields) 0 h d)) w')

pub hget_cmd-Keeps : Keeps hget_cmd
unfolding hget_cmd get_typed
hget_cmd-Keeps [] now db w = w
hget_cmd-Keeps (key ∷ []) now db w = w
hget_cmd-Keeps (key ∷ field ∷ _) now db w = check_expire-IsWell db key now w

pub hexists_cmd-Keeps : Keeps hexists_cmd
unfolding hexists_cmd get_typed
hexists_cmd-Keeps [] now db w = w
hexists_cmd-Keeps (key ∷ []) now db w = w
hexists_cmd-Keeps (key ∷ field ∷ _) now db w = check_expire-IsWell db key now w

pub hkeys_cmd-Keeps : Keeps hkeys_cmd
unfolding hkeys_cmd entries_with get_typed
hkeys_cmd-Keeps [] now db w = w
hkeys_cmd-Keeps (key ∷ _) now db w = check_expire-IsWell db key now w

pub hvals_cmd-Keeps : Keeps hvals_cmd
unfolding hvals_cmd entries_with get_typed
hvals_cmd-Keeps [] now db w = w
hvals_cmd-Keeps (key ∷ _) now db w = check_expire-IsWell db key now w

pub hgetall_cmd-Keeps : Keeps hgetall_cmd
unfolding hgetall_cmd entries_with get_typed
hgetall_cmd-Keeps [] now db w = w
hgetall_cmd-Keeps (key ∷ _) now db w = check_expire-IsWell db key now w

pub hlen_cmd-Keeps : Keeps hlen_cmd
unfolding hlen_cmd get_typed
hlen_cmd-Keeps [] now db w = w
hlen_cmd-Keeps (key ∷ _) now db w = check_expire-IsWell db key now w

pub hstrlen_cmd-Keeps : Keeps hstrlen_cmd
unfolding hstrlen_cmd get_typed
hstrlen_cmd-Keeps [] now db w = w
hstrlen_cmd-Keeps (key ∷ []) now db w = w
hstrlen_cmd-Keeps (key ∷ field ∷ _) now db w = check_expire-IsWell db key now w
