-- ===== src/Command/Hashes/Erased.antt =====
-- What HDEL of src/command/hash_cmd.cpp deletes, counted apart from its loop.
use redis_like.Base.{
  among, ℕ, suc, ◌+◌, ◌≡◌, refl, ◌∙◌, ap, not, ◌&&◌, Option, none, some, List, [], ◌∷◌, arith,
  Bytes, same, same_iff, if◌then◌else◌, ℤ, Map, erase, has, find, has-erase, Option-cases,
  Bool-cases, inl, inr, is_empty,
}
use redis_like.Object.{RedisObject, hash, as_hash}
use redis_like.Dict.{Dict}
use redis_like.Expire.View.{view}
use redis_like.Command.Context.{integer_ℕ}
use redis_like.Command.Hashes.{erase_all, hdel_cmd}
use redis_like.Command.Hashes.Laws.{find-erase_all, hdel_reply, after_hdel, hdel_cmd_loop}

-- how many different fields of the list the hash has
abbrev pub held : List Bytes → Map Bytes → ℕ
held [] h = 0
held (field ∷ fields) h = (if has field h && not (among field fields) then 1 else 0) + held fields h

held-erase :
    (f : Bytes) (fields : List Bytes) (h : Map Bytes)
    → held fields (erase f h) + (if among f fields && has f h then 1 else 0) ≡ held fields h
held-erase f [] h = omega arith
held-erase f (x ∷ fields) h = elim (Bool-cases (same f x)) [
  | inl e ↦
      let alike : f ≡ x = (same_iff f x).0 e in
      ground (
        arith,
        held-erase f fields h,
        has-erase f x h,
        ap (λ k. among k fields) alike,
        ap (λ k. has k h) alike,
        same_iff x f,
      )
  | inr e ↦ ground (arith, held-erase f fields h, has-erase f x h, same_iff f x, same_iff x f)
]

erased-held :
    (fields : List Bytes) (n : ℕ) (h : Map Bytes) → (erase_all n fields h).0 ≡ n + held fields h
unfolding erase_all
erased-held [] n h = omega arith
erased-held (field ∷ fields) n h = ground (
  arith,
  erased-held fields n (erase field h),
  erased-held fields (suc n) (erase field h),
  held-erase field fields h,
)

-- the hash without the fields
abbrev pub AreErased : List Bytes → Map Bytes → Map Bytes → Type 0
AreErased fields h t = (f : Bytes) → find f t ≡ (if among f fields then none else find f h)

-- what is seen at the key before HDEL and after it
abbrev pub IsAfterHdel : List Bytes → Option RedisObject → Option RedisObject → Type 0
IsAfterHdel fields none o = o ≡ none
IsAfterHdel fields (some obj) o = elim (as_hash obj.value) [
  | none ↦ o ≡ some obj
  | some h ↦
      (t : Map Bytes) × (o ≡ (if is_empty t then none else some (record obj { value = hash t })))
      × AreErased fields h t
]

after_hdel-IsAfterHdel :
    (fields : List Bytes) (o : Option RedisObject) → IsAfterHdel fields o (after_hdel fields o)
after_hdel-IsAfterHdel fields none = refl
after_hdel-IsAfterHdel fields (some obj) = elim (Option-cases (as_hash obj.value)) [
  | inl e ↦ rw (IsAfterHdel, e) (rw (after_hdel, e) refl)
  | inr (h, e) ↦
      rw (IsAfterHdel, e)
        ((erase_all 0 fields h).1, rw (after_hdel, e) refl, λ f. find-erase_all fields 0 f h)
]

-- the number of the fields that are there: none of a missing key or another type
abbrev pub held_of : List Bytes → Option RedisObject → ℕ
held_of fields none = 0
held_of fields (some obj) = elim (as_hash obj.value) [ none ↦ 0 | some h ↦ held fields h ]

hdel_reply-held :
    (fields : List Bytes) (o : Option RedisObject)
    → hdel_reply fields o ≡ integer_ℕ (held_of fields o)
hdel_reply-held fields none = refl
hdel_reply-held fields (some obj) = elim (Option-cases (as_hash obj.value)) [
  | inl e ↦ ground (arith, e)
  | inr (h, e) ↦ let n = erased-held fields 0 h in ground (arith, e, n)
]

-- HDEL replies with the number of its different fields that the hash of the key has, 0 for a missing key
-- or another type, which stay. The hash is left without those fields and with all others as they were,
-- with its time; the key goes with the last field. What is seen elsewhere stays.
pub hdel_cmd_lem :
    (key field : Bytes) (rest : List Bytes) (j : Bytes) (now : ℤ) (db : Dict)
    → ((hdel_cmd (key ∷ field ∷ rest) now db).0
        ≡ integer_ℕ (held_of (field ∷ rest) (view db now key)))
      × ((o : Option RedisObject) × IsAfterHdel (field ∷ rest) (view db now key) o
          × (view (hdel_cmd (key ∷ field ∷ rest) now db).1 now j
              ≡ (if same key j then o else view db now j)))
hdel_cmd_lem key field rest j now db =
    let fields = field ∷ rest in
    let (reply, seen) = hdel_cmd_loop key field rest j now db in
    (
      reply ∙ hdel_reply-held fields (view db now key),
      (after_hdel fields (view db now key), after_hdel-IsAfterHdel fields (view db now key), seen),
    )
