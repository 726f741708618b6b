-- ===== src/Command/Hashes/Laws.antt =====
-- The hash commands against the fields of a key.
use redis_like.Base.{
  among, ℕ, suc, ◌+◌, ◌%◌, ◌≡◌, refl, ◌∙◌, ap, Option, none, some, List, [], ◌∷◌, arith, Bytes,
  same, same_iff, same_refl, if◌then◌else◌, ℤ, length, Map, find, put, erase, has, find-put,
  find-erase, IsDistinct, erase-IsDistinct, length-erase, Option-cases, inl, inr, is_empty,
}
use redis_like.Resp.{null_bulk_string, bulk_string}
use redis_like.Object.{RedisObject, hash, as_hash, create_hash, is_expired}
use redis_like.Dict
use redis_like.Dict.{Dict}
use redis_like.Expire.View.{view}
use redis_like.Command.Context.{check_expire, wrong_type, integer_ℕ, typed}
use redis_like.Command.Views.{
  view-check_expire, view-set, view-del, view-store, with_value, get_typed_lem, get_or_create_lem,
}
use redis_like.Command.Hashes.{set_fields, set_with, hset_cmd, hget_cmd, erase_all, hdel_cmd}

-- the value that the last pair for the field gives it, or else the one that it had
abbrev pub last_given : Bytes → List Bytes → Option Bytes → Option Bytes
last_given f [] old = old
last_given f (field ∷ []) old = old
last_given f (field ∷ val ∷ rest) old = last_given f rest (if same field f then some val else old)

pub find-set_fields :
    (pairs : List Bytes) (n : ℕ) (f : Bytes) (h : Map Bytes)
    → find f (set_fields n pairs h).1 ≡ last_given f pairs (find f h)
unfolding set_fields
find-set_fields [] n f h = refl
find-set_fields (field ∷ []) n f h = refl
find-set_fields (field ∷ val ∷ rest) n f h =
    find-set_fields rest _ f (put field val h) ∙ ap (last_given f rest) (find-put field f val h)

length-put :
    (k v : Bytes) (m : Map Bytes) → length (put k v m) ≡ (if has k m then 0 else 1) + length m
unfolding put has
length-put k v [] = omega arith
length-put k v ((j, w) ∷ m) = ground (arith, length-put k v m)

-- the reply of HSET is the number of fields that it added
pub length-set_fields :
    (pairs : List Bytes) (n : ℕ) (h : Map Bytes)
    → length (set_fields n pairs h).1 + n ≡ (set_fields n pairs h).0 + length h
unfolding set_fields
length-set_fields [] n h = omega arith
length-set_fields (field ∷ []) n h = omega arith
length-set_fields (field ∷ val ∷ rest) n h = ground (
  arith,
  length-set_fields rest n (put field val h),
  length-set_fields rest (suc n) (put field val h),
  length-put field val h,
)

pub find-erase_all {ℓ} :
    {V : Type ℓ} (fields : List Bytes) (n : ℕ) (f : Bytes) (h : Map V)
    → find f (erase_all n fields h).1 ≡ (if among f fields then none else find f h)
unfolding erase_all
find-erase_all [] n f h = refl
find-erase_all (field ∷ fields) n f h =
    find-erase_all fields _ f (erase field h) ∙ rw (find-erase field f h) (ground arith)

pub length-erase_all {ℓ} :
    {V : Type ℓ} (fields : List Bytes) (n : ℕ) (h : Map V)
    → IsDistinct h
    → (erase_all n fields h).0 + length (erase_all n fields h).1 ≡ n + length h
unfolding erase_all
length-erase_all [] n h d = refl
length-erase_all (field ∷ fields) n h d = ground (
  arith,
  length-erase_all fields n (erase field h) (erase-IsDistinct field h d),
  length-erase_all fields (suc n) (erase field h) (erase-IsDistinct field h d),
  length-erase {ℓ} field h d,
)

-- the fields of the key of a HSET: none of a missing key, and no result for another type
abbrev pub hash_of : Option RedisObject → Option (Map Bytes)
hash_of none = some []
hash_of (some obj) = as_hash obj.value

abbrev pub hset_reply : List Bytes → Option (Map Bytes) → Bytes
hset_reply pairs none = wrong_type
hset_reply pairs (some h) = integer_ℕ (set_fields 0 pairs h).0

abbrev pub after_hset : List Bytes → Option RedisObject → Option RedisObject
after_hset pairs none = some (record { value = hash (set_fields 0 pairs []).1; expire_at = none })
after_hset pairs (some obj) = elim (as_hash obj.value) [
  | none ↦ some obj
  | some h ↦ some (record obj { value = hash (set_fields 0 pairs h).1 })
]

pub hset_with_lem :
    (key : Bytes) (pairs : List Bytes) (j : Bytes) (now : ℤ) (db : Dict)
    → ((set_with key pairs now db).0 ≡ hset_reply pairs (hash_of (view db now key)))
      × (view (set_with key pairs now db).1 now j
          ≡ (if same key j then after_hset pairs (view db now key) else view db now j))
unfolding set_with with_value create_hash is_expired
hset_with_lem key pairs j now db =
    let db₁ = check_expire db key now in
    let found = get_or_create_lem as_hash create_hash [] db key now in
    let kept = view-check_expire db key j now in
    let seen = view-check_expire db key key now in
    elim (Option-cases (view db now key)) [
      | inl e ↦
          let db₂ = Dict.set db₁ key create_hash in
          let created = view-set db₁ key j create_hash now in
          let created_here = view-set db₁ key key create_hash now in
          let written = view-store db₂ key j (hash (set_fields 0 pairs []).1) now in
          (
            ground (arith, found, e),
            ground (arith, found, e, kept, created, created_here, written, same_refl key),
          )
      | inr (obj, e) ↦ elim (Option-cases (as_hash obj.value)) [
        | inl f ↦ (ground (arith, found, e, f), ground (arith, found, e, f, kept, same_iff key j))
        | inr (h, f) ↦
            let written = view-store db₁ key j (hash (set_fields 0 pairs h).1) now in
            (ground (arith, found, e, f), ground (arith, found, e, f, kept, seen, written))
      ]
    ]

abbrev pub value_reply : Option Bytes → Bytes
value_reply none = null_bulk_string
value_reply (some v) = bulk_string v

-- HGET replies by what is seen at its time.
abbrev pub hget_reply : Bytes → Option RedisObject → Bytes
hget_reply f o = elim (typed as_hash o) [
  | none ↦ null_bulk_string
  | some h ↦ value_reply (find f h)
]

reply-hget_cmd :
    (key f : Bytes) (now : ℤ) (db : Dict)
    → (hget_cmd (key ∷ f ∷ []) now db).0 ≡ hget_reply f (view db now key)
unfolding hget_cmd
reply-hget_cmd key f now db = ground (arith, get_typed_lem as_hash db key now)

hget_reply-after_hset :
    (f : Bytes) (pairs : List Bytes) (o : Option RedisObject) (h : Map Bytes)
    → hash_of o ≡ some h
    → hget_reply f (after_hset pairs o) ≡ value_reply (find f (set_fields 0 pairs h).1)
hget_reply-after_hset f pairs none h e = ground arith
hget_reply-after_hset f pairs (some obj) h e = ground arith

-- the guard of HSET lets one or more pairs pass
hset_cmd-pairs :
    (key field val : Bytes) (rest : List Bytes) (now : ℤ) (db : Dict)
    → length rest % 2 ≡ 0
    → hset_cmd (key ∷ field ∷ val ∷ rest) now db ≡ set_with key (field ∷ val ∷ rest) now db
unfolding hset_cmd
hset_cmd-pairs key field val rest now db even = ground arith

-- HSET of one or more pairs to a key that holds a hash or nothing, and then HGET of a field at the
-- same time: the value of the last pair for that field, or else what the field held before.
pub hget-hset_cmd :
    (key f field val : Bytes) (rest : List Bytes) (now : ℤ) (db : Dict) (h : Map Bytes)
    → length rest % 2 ≡ 0
    → hash_of (view db now key) ≡ some h
    → (hget_cmd (key ∷ f ∷ []) now (hset_cmd (key ∷ field ∷ val ∷ rest) now db).1).0
      ≡ value_reply (last_given f (field ∷ val ∷ rest) (find f h))
hget-hset_cmd key f field val rest now db h even found =
    let pairs = field ∷ val ∷ rest in
    rw (hset_cmd-pairs key field val rest now db even) (
      reply-hget_cmd key f now _
      ∙ rw ((hset_with_lem key pairs key now db).1) (
          rw (same_refl key) (
            hget_reply-after_hset f pairs (view db now key) h found
            ∙ ap value_reply (find-set_fields pairs 0 f h))))

-- the hash after HDEL, which goes with its last field
abbrev pub after_hdel : List Bytes → Option RedisObject → Option RedisObject
after_hdel fields none = none
after_hdel fields (some obj) = elim (as_hash obj.value) [
  | none ↦ some obj
  | some h ↦
      if is_empty (erase_all 0 fields h).1
      then none
      else some (record obj { value = hash (erase_all 0 fields h).1 })
]

abbrev pub hdel_reply : List Bytes → Option RedisObject → Bytes
hdel_reply fields o = elim (typed as_hash o) [
  | none ↦ integer_ℕ 0
  | some h ↦ integer_ℕ (erase_all 0 fields h).0
]

-- HDEL by its loop
pub hdel_cmd_loop :
    (key field : Bytes) (rest : List Bytes) (j : Bytes) (now : ℤ) (db : Dict)
    → ((hdel_cmd (key ∷ field ∷ rest) now db).0 ≡ hdel_reply (field ∷ rest) (view db now key))
      × (view (hdel_cmd (key ∷ field ∷ rest) now db).1 now j
          ≡ (if same key j then after_hdel (field ∷ rest) (view db now key) else view db now j))
unfolding hdel_cmd with_value
hdel_cmd_loop key field rest j now db =
    let fields = field ∷ rest in
    let db₁ = check_expire db key now in
    let found = get_typed_lem as_hash db key now in
    let kept = view-check_expire db key j now in
    let seen = view-check_expire db key key now in
    elim (Option-cases (view db now key)) [
      | inl e ↦ (ground (arith, found, e), ground (arith, found, e, kept, same_iff key j))
      | inr (obj, e) ↦ elim (Option-cases (as_hash obj.value)) [
        | inl f ↦ (ground (arith, found, e, f), ground (arith, found, e, f, kept, same_iff key j))
        | inr (h, f) ↦
            let db₂ = Dict.store db₁ key (hash (erase_all 0 fields h).1) in
            let written = view-store db₁ key j (hash (erase_all 0 fields h).1) now in
            let gone = view-del db₂ key j now in
            (ground (arith, found, e, f), ground (arith, found, e, f, kept, seen, written, gone))
      ]
    ]
