-- ===== src/Command/SortedSets/Valid.antt =====
-- The sorted sets of a keyspace are valid, and the steps that handlers are made of keep them so.
use mathlib.Core.Path.{subst}
use redis_like.Base.{
  ◌≡◌, refl, sym, Option, none, some, [], ◌∷◌, Bytes, same, find, put, erase, Option-cases,
  Bool-cases, ◌⊎◌, inl, inr, ℤ,
}
use redis_like.Ds.SkipList
use redis_like.Ds.SkipList.{SkipList, SkipListNode, Rolls, Chain, ground_chain}
use redis_like.Ds.SkipList.Valid.{IsValid, empty-IsValid}
use redis_like.Object.{
  Value, string, hash, list, set, zset, RedisObject, as_zset, create_zset, is_expired,
}
use redis_like.Dict
use redis_like.Dict.{Dict}
use redis_like.Expire.{lazy_check}
use redis_like.Command.Context.{check_expire, or_created, typed}

abbrev pub ValidValue : Value → Type 0
ValidValue (zset z) = IsValid z
ValidValue (string s) = Unit
ValidValue (hash h) = Unit
ValidValue (list l) = Unit
ValidValue (set s) = Unit

-- every sorted set of the keyspace is valid
abbrev pub AllValid : Dict → Type 0
AllValid [] = Unit
AllValid ((k, obj) ∷ db) = ValidValue obj.value × AllValid db

put-AllValid :
    (key : Bytes) (obj : RedisObject) (db : Dict)
    → ValidValue obj.value
    → AllValid db
    → AllValid (put key obj db)
unfolding put
put-AllValid key obj [] v h = (v, tt)
put-AllValid key obj ((k, o) ∷ db) v h = elim (Bool-cases (same k key)) [
  | inl e ↦ rw e (v, h.1)
  | inr e ↦ rw e (h.0, put-AllValid key obj db v h.1)
]

pub erase-AllValid : (key : Bytes) (db : Dict) → AllValid db → AllValid (erase key db)
unfolding erase
erase-AllValid key [] h = tt
erase-AllValid key ((k, o) ∷ db) h = elim (Bool-cases (same k key)) [
  | inl e ↦ rw e (erase-AllValid key db h.1)
  | inr e ↦ rw e (h.0, erase-AllValid key db h.1)
]

find-AllValid :
    (key : Bytes) (obj : RedisObject) (db : Dict)
    → AllValid db
    → find key db ≡ some obj
    → ValidValue obj.value
unfolding find
find-AllValid key obj [] h e = cc
find-AllValid key obj ((k, o) ∷ db) h e = elim (Bool-cases (same k key)) [
  | inl s ↦ let own : o ≡ obj = cc (rw s at e) in rw own at (h.0)
  | inr s ↦ find-AllValid key obj db h.1 (rw s at e)
]

set-AllValid :
    (db : Dict) (key : Bytes) (obj : RedisObject)
    → ValidValue obj.value
    → AllValid db
    → AllValid (Dict.set db key obj)
unfolding Dict.set
set-AllValid db key obj v h = put-AllValid key obj db v h

pub store-AllValid :
    (db : Dict) (key : Bytes) (v : Value)
    → ValidValue v
    → AllValid db
    → AllValid (Dict.store db key v)
unfolding Dict.store Dict.get
store-AllValid db key v valid h = elim (Option-cases (find key db)) [
  | inl e ↦ rw (Dict.store, e) h
  | inr (obj, e) ↦ rw (Dict.store, e) (set-AllValid db key (record obj { value = v }) valid h)
]

-- `CheckExpire` leaves the keyspace, or the keyspace without the key
pub check_expire-cases :
    (db : Dict) (key : Bytes) (now : ℤ)
    → (check_expire db key now ≡ db) ⊎ (check_expire db key now ≡ erase key db)
unfolding check_expire lazy_check Dict.del
check_expire-cases db key now = elim (Option-cases (Dict.get db key)) [
  | inl e ↦ inl (rw (check_expire, lazy_check, e) refl)
  | inr (obj, e) ↦ elim (Bool-cases (is_expired obj now)) [
    | inl t ↦ inr (rw (check_expire, lazy_check, e, t) refl)
    | inr t ↦ inl (rw (check_expire, lazy_check, e, t) refl)
  ]
]

pub check_expire-AllValid :
    (db : Dict) (key : Bytes) (now : ℤ) → AllValid db → AllValid (check_expire db key now)
check_expire-AllValid db key now h = elim (check_expire-cases db key now) [
  | inl e ↦ subst AllValid (sym e) h
  | inr e ↦ subst AllValid (sym e) (erase-AllValid key db h)
]

value-IsValid : (v : Value) (z : SkipList) → ValidValue v → as_zset v ≡ some z → IsValid z
value-IsValid (zset y) z h e = let own : y ≡ z = cc in rw own at h
value-IsValid (string s) z h e = cc
value-IsValid (hash s) z h e = cc
value-IsValid (list s) z h e = cc
value-IsValid (set s) z h e = cc

get-IsValid :
    (db : Dict) (key : Bytes) (o : Option RedisObject) (z : SkipList)
    → AllValid db
    → Dict.get db key ≡ o
    → typed as_zset o ≡ some z
    → IsValid z
unfolding Dict.get
get-IsValid db key none z h e f = cc
get-IsValid db key (some obj) z h e f = value-IsValid obj.value z (find-AllValid key obj db h e) f

pub get_zset-IsValid :
    (db : Dict) (key : Bytes) (now : ℤ) (z : SkipList)
    → AllValid db
    → typed as_zset (Dict.get (check_expire db key now) key) ≡ some z
    → IsValid z
get_zset-IsValid db key now z h e =
    let db₁ = check_expire db key now in
    get-IsValid db₁ key (Dict.get db₁ key) z (check_expire-AllValid db key now h) refl e

-- the dictionary and the sorted set that ZADD works on
pub record Opened (r : Option SkipList × Dict) : Type 0 where
  pub dict : AllValid r.1
  pub opened : (z : SkipList) → r.0 ≡ some z → IsValid z

pub or_created-Opened :
    (db : Dict) (key : Bytes) (o : Option RedisObject)
    → AllValid db
    → Dict.get db key ≡ o
    → Opened (or_created as_zset create_zset SkipList.empty db key o)
or_created-Opened db key none h e = record {
  dict = set-AllValid db key create_zset (unfold create_zset in empty-IsValid) h;
  opened = λ z f. let own : SkipList.empty ≡ z = cc in rw own at empty-IsValid;
}
or_created-Opened db key (some obj) h e = record {
  dict = h;
  opened = λ z f. get-IsValid db key (some obj) z h e f;
}
