-- ===== src/Command/Sets/Added.antt =====
-- What SADD of src/command/set_cmd.cpp adds, counted apart from its loop.
use redis_like.Base.{
  among, ℕ, suc, ◌+◌, ◌≡◌, refl, ◌∙◌, ap, not, ◌&&◌, ◌||◌, Option, none, some, List, [], ◌∷◌, arith,
  Bytes, same, same_iff, if◌then◌else◌, ℤ, length, put, has, has-put, Option-cases, Bool-cases, inl,
  inr,
}
use redis_like.Object.{RedisObject, set, as_set}
use redis_like.Dict.{Dict}
use redis_like.Expire.View.{view}
use redis_like.Command.Context.{wrong_type, integer_ℕ}
use redis_like.Command.Sets.{RedisSet, add_all, sadd_cmd}
use redis_like.Command.Sets.Laws.{
  has-add_all, length-add_all, set_of, sadd_reply, after_sadd, sadd_cmd_loop,
}

-- how many different members of the list the set does not have
abbrev pub news : List Bytes → RedisSet → ℕ
news [] s = 0
news (m ∷ ms) s = (if among m ms || has m s then 0 else 1) + news ms s

news-put :
    (m : Bytes) (ms : List Bytes) (s : RedisSet)
    → news ms (put m tt s) + (if among m ms && not (has m s) then 1 else 0) ≡ news ms s
news-put m [] s = omega arith
news-put m (x ∷ ms) s = elim (Bool-cases (same m x)) [
  | inl e ↦
      let alike : m ≡ x = (same_iff m x).0 e in
      ground (
        arith,
        news-put m ms s,
        has-put m x tt s,
        ap (λ k. among k ms) alike,
        ap (λ k. has k s) alike,
        same_iff x m,
      )
  | inr e ↦ ground (arith, news-put m ms s, has-put m x tt s, same_iff m x, same_iff x m)
]

added-news : (ms : List Bytes) (n : ℕ) (s : RedisSet) → (add_all n ms s).0 ≡ n + news ms s
unfolding add_all
added-news [] n s = omega arith
added-news (m ∷ ms) n s =
    ground
      (arith, added-news ms n (put m tt s), added-news ms (suc n) (put m tt s), news-put m ms s)

-- the set after SADD: the old members and the new ones, and each of those counted once
pub record IsAdded (ms : List Bytes) (s t : RedisSet) : Type 0 where
  pub members : (j : Bytes) → has j t ≡ (among j ms || has j s)
  pub count : length t ≡ news ms s + length s

add_all-IsAdded : (ms : List Bytes) (s : RedisSet) → IsAdded ms s (add_all 0 ms s).1
add_all-IsAdded ms s = record {
  members = λ j. has-add_all ms 0 j s;
  count = omega (arith, length-add_all ms 0 s, added-news ms 0 s);
}

abbrev pub added_reply : List Bytes → Option RedisSet → Bytes
added_reply ms none = wrong_type
added_reply ms (some s) = integer_ℕ (news ms s)

-- what is seen at the key before SADD and after it
abbrev pub IsAfterSadd : List Bytes → Option RedisObject → Option RedisObject → Type 0
IsAfterSadd ms none o =
    (t : RedisSet) × (o ≡ some (record { value = set t; expire_at = none })) × IsAdded ms [] t
IsAfterSadd ms (some obj) o = elim (as_set obj.value) [
  | none ↦ o ≡ some obj
  | some s ↦ (t : RedisSet) × (o ≡ some (record obj { value = set t })) × IsAdded ms s t
]

after_sadd-IsAfterSadd :
    (ms : List Bytes) (o : Option RedisObject) → IsAfterSadd ms o (after_sadd ms o)
after_sadd-IsAfterSadd ms none = ((add_all 0 ms []).1, refl, add_all-IsAdded ms [])
after_sadd-IsAfterSadd ms (some obj) = elim (Option-cases (as_set obj.value)) [
  | inl e ↦ rw (IsAfterSadd, e) (rw (after_sadd, e) refl)
  | inr (s, e) ↦
      rw (IsAfterSadd, e) ((add_all 0 ms s).1, rw (after_sadd, e) refl, add_all-IsAdded ms s)
]

added_reply-sadd_reply :
    (ms : List Bytes) (o : Option RedisSet) → sadd_reply ms o ≡ added_reply ms o
added_reply-sadd_reply ms none = refl
added_reply-sadd_reply ms (some s) = ap integer_ℕ (let n = added-news ms 0 s in omega (arith, n))

-- SADD replies with the number of its different members that the set of the key does not have. What is
-- then seen at the key is a set of the old members and of the given ones, larger by that number, with
-- the time of the old one; a missing key gets such a set without a time. An object of another type stays
-- and is an error. What is seen elsewhere stays.
pub sadd_cmd_lem :
    (key m : Bytes) (rest : List Bytes) (j : Bytes) (now : ℤ) (db : Dict)
    → ((sadd_cmd (key ∷ m ∷ rest) now db).0 ≡ added_reply (m ∷ rest) (set_of (view db now key)))
      × ((o : Option RedisObject) × IsAfterSadd (m ∷ rest) (view db now key) o
          × (view (sadd_cmd (key ∷ m ∷ rest) now db).1 now j
              ≡ (if same key j then o else view db now j)))
sadd_cmd_lem key m rest j now db =
    let ms = m ∷ rest in
    let (reply, seen) = sadd_cmd_loop key m rest j now db in
    (
      reply ∙ added_reply-sadd_reply ms (set_of (view db now key)),
      (after_sadd ms (view db now key), after_sadd-IsAfterSadd ms (view db now key), seen),
    )
