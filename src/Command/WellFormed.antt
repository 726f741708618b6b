-- ===== src/Command/WellFormed.antt =====
-- A keyspace in which no key stands twice, no list, hash or set is empty, and no field and no member
-- stands twice; and what the parts of the handlers in src/command do to it.
pub mod Typed
pub mod Keys
pub mod Lists
pub mod Hashes
pub mod Sets
pub mod SortedSets
use mathlib.Core.Path.{subst}
use redis_like.Base.{
  ◌≡◌, refl, sym, ◌∙◌, ap, Bool, true, false, Option, none, some, List, [], ◌∷◌, Bytes, same,
  same_iff, is_empty, if◌then◌else◌, arith, inl, inr, Bool-cases, Option-cases, ℤ, find, put, erase,
  find-put, find-erase, IsDistinct, put-IsDistinct, erase-IsDistinct,
}
use redis_like.Object.{Value, string, hash, list, set, zset, RedisObject}
use redis_like.Dict
use redis_like.Dict.{Dict}
use redis_like.Command.Context.{Handler, check_expire, typed, get_typed, or_created, get_or_create}
use redis_like.Command.SortedSets.Valid.{check_expire-cases}

abbrev pub IsWellValue : Value → Type 0
IsWellValue (string s) = Unit
IsWellValue (list l) = is_empty l ≡ false
IsWellValue (hash h) = (is_empty h ≡ false) × IsDistinct h
IsWellValue (set s) = (is_empty s ≡ false) × IsDistinct s
IsWellValue (zset z) = Unit

-- the keys are distinct and the values of all keys but one are well-formed
pub record IsWellBut (key : Bytes) (db : Dict) : Type 0 where
  pub distinct : IsDistinct db
  pub objects :
      (k : Bytes) (obj : RedisObject)
      → same key k ≡ false
      → find k db ≡ some obj
      → IsWellValue obj.value

pub record IsWell (db : Dict) : Type 0 where
  pub distinct : IsDistinct db
  pub objects : (k : Bytes) (obj : RedisObject) → find k db ≡ some obj → IsWellValue obj.value

-- A handler keeps the keyspace well-formed, whatever its arguments and the time.
abbrev pub Keeps : Handler → Type 0
Keeps handler =
    (args : List Bytes) (now : ℤ) (db : Dict) → IsWell db → IsWell (handler args now db).1

pub IsWell-but : (key : Bytes) (db : Dict) → IsWell db → IsWellBut key db
IsWell-but key db w = record { distinct = w.distinct; objects = λ k obj e. w.objects k obj }

put_value :
    (key k : Bytes) (obj o : RedisObject) (x : Option RedisObject)
    → IsWellValue obj.value
    → (same key k ≡ false → x ≡ some o → IsWellValue o.value)
    → (if same key k then some obj else x) ≡ some o
    → IsWellValue o.value
put_value key k obj o x v h e = elim (Bool-cases (same key k)) [
  | inl b ↦ let own : obj ≡ o = ground arith in subst (λ o. IsWellValue o.value) own v
  | inr b ↦ h b (rw b at e)
]

pub set-IsWell :
    (db : Dict) (key : Bytes) (obj : RedisObject)
    → IsWellValue obj.value
    → IsWellBut key db
    → IsWell (Dict.set db key obj)
unfolding Dict.set
set-IsWell db key obj v w = record {
  distinct = put-IsDistinct key obj db w.distinct;
  objects = λ k o e.
      put_value key k obj o (find k db) v (w.objects k o) (sym (find-put key k obj db) ∙ e);
}

-- any object may stand at the key
pub set-IsWellBut :
    (db : Dict) (key : Bytes) (obj : RedisObject)
    → IsWellBut key db
    → IsWellBut key (Dict.set db key obj)
unfolding Dict.set
set-IsWellBut db key obj w = record {
  distinct = put-IsDistinct key obj db w.distinct;
  objects = λ k o b e. w.objects k o b (
      sym (ap (λ (b : Bool). if b then some obj else find k db) b)
      ∙ sym (find-put key k obj db)
      ∙ e);
}

erased_value :
    (key k : Bytes) (o : RedisObject) (x : Option RedisObject)
    → (same key k ≡ false → x ≡ some o → IsWellValue o.value)
    → (if same key k then none else x) ≡ some o
    → IsWellValue o.value
erased_value key k o x h e = elim (Bool-cases (same key k)) [
  | inl b ↦ absurd (ground arith)
  | inr b ↦ h b (rw b at e)
]

pub del-IsWell : (db : Dict) (key : Bytes) → IsWellBut key db → IsWell (Dict.del db key).1
unfolding Dict.del
del-IsWell db key w = record {
  distinct = erase-IsDistinct key db w.distinct;
  objects =
      λ k o e. erased_value key k o (find k db) (w.objects k o) (sym (find-erase key k db) ∙ e);
}

store-cases :
    (db : Dict) (key : Bytes) (v : Value) (P : Dict → Type 0)
    → (Dict.get db key ≡ none → P db)
    → ((obj : RedisObject) → P (Dict.set db key (record obj { value = v })))
    → P (Dict.store db key v)
unfolding Dict.store
store-cases db key v P h k = elim (Option-cases (Dict.get db key)) [
  | inl e ↦ rw (Dict.store, e) (h e)
  | inr (obj, e) ↦ rw (Dict.store, e) (k obj)
]

-- a key that is not there is no exception
but_none :
    (key k : Bytes) (db : Dict) (obj : RedisObject)
    → find key db ≡ none
    → (same key k ≡ false → IsWellValue obj.value)
    → find k db ≡ some obj
    → IsWellValue obj.value
but_none key k db obj n h e = elim (Bool-cases (same key k)) [
  | inl b ↦
      let alike : key ≡ k = (same_iff key k).0 b in
      let one : none ≡ some obj = sym n ∙ ap (λ k. find k db) alike ∙ e in absurd (ground arith)
  | inr b ↦ h b
]

pub store-IsWell :
    (db : Dict) (key : Bytes) (v : Value)
    → IsWellValue v
    → IsWellBut key db
    → IsWell (Dict.store db key v)
unfolding Dict.get
store-IsWell db key v valid w =
    store-cases db key v IsWell
      (λ e. record {
        distinct = w.distinct;
        objects = λ k o f. but_none key k db o e (λ b. w.objects k o b f) f;
      })
      (λ obj. set-IsWell db key (record obj { value = v }) valid w)

store-IsWellBut :
    (db : Dict) (key : Bytes) (v : Value) → IsWellBut key db → IsWellBut key (Dict.store db key v)
store-IsWellBut db key v w =
    store-cases db key v (IsWellBut key) (λ e. w)
      (λ obj. set-IsWellBut db key (record obj { value = v }) w)

-- An emptied container goes with its key.
pub store_or_del-IsWell :
    (empty : Bool) (db : Dict) (key : Bytes) (v : Value)
    → (empty ≡ false → IsWellValue v)
    → IsWell db
    → IsWell (if empty then (Dict.del (Dict.store db key v) key).1 else Dict.store db key v)
store_or_del-IsWell true db key v h w =
    del-IsWell (Dict.store db key v) key (store-IsWellBut db key v (IsWell-but key db w))
store_or_del-IsWell false db key v h w = store-IsWell db key v (h refl) (IsWell-but key db w)

pub check_expire-IsWell :
    (db : Dict) (key : Bytes) (now : ℤ) → IsWell db → IsWell (check_expire db key now)
unfolding Dict.del
check_expire-IsWell db key now w = elim (check_expire-cases db key now) [
  | inl e ↦ subst IsWell (sym e) w
  | inr e ↦ subst IsWell (sym e) (del-IsWell db key (IsWell-but key db w))
]
