-- ===== src/Command/Sets/Laws.antt =====
-- The set commands against the members of a key.
use native.Mathlib.Nat.{mod-lt}
use redis_like.Base.{
  among, ℕ, zero, suc, ◌+◌, ◌%◌, ◌≤◌, ◌<◌, ◌≡◌, refl, ◌∙◌, ap, true, false, not, ◌&&◌, ◌||◌, Option,
  none, some, List, [], ◌∷◌, arith, Bytes, same, same_iff, same_refl, if◌then◌else◌, ℤ, length, put,
  erase, has, has-put, has-erase, IsDistinct, erase-IsDistinct, length-erase, Option-cases, inl,
  inr, keys, get_elem?, All,
}
use redis_like.Object.{RedisObject, set, as_set, create_set, is_expired}
use redis_like.Dict
use redis_like.Dict.{Dict}
use redis_like.Expire.View.{view}
use redis_like.Command.Context.{check_expire, wrong_type, integer_ℕ}
use redis_like.Command.Views.{
  view-check_expire, view-set, view-store, with_value, get_or_create_lem,
}
use redis_like.Command.Sets.{RedisSet, add_all, sadd_cmd, pop_members, Draws}

-- SADD keeps what was there and adds its members.
pub has-add_all :
    (ms : List Bytes) (n : ℕ) (j : Bytes) (s : RedisSet)
    → has j (add_all n ms s).1 ≡ (among j ms || has j s)
unfolding add_all
has-add_all [] n j s = refl
has-add_all (m ∷ ms) n j s = has-add_all ms _ j (put m tt s) ∙ rw (has-put m j tt s) (ground arith)

length-put :
    (k : Bytes) (m : RedisSet) → length (put k tt m) ≡ (if has k m then 0 else 1) + length m
unfolding put has
length-put k [] = omega arith
length-put k ((j, w) ∷ m) = ground (arith, length-put k m)

-- the reply of SADD is the number of members that it added
pub length-add_all :
    (ms : List Bytes) (n : ℕ) (s : RedisSet)
    → length (add_all n ms s).1 + n ≡ (add_all n ms s).0 + length s
unfolding add_all
length-add_all [] n s = omega arith
length-add_all (m ∷ ms) n s = ground (
  arith,
  length-add_all ms n (put m tt s),
  length-add_all ms (suc n) (put m tt s),
  length-put m s,
)

abbrev pub set_of : Option RedisObject → Option RedisSet
set_of none = some []
set_of (some obj) = as_set obj.value

abbrev pub sadd_reply : List Bytes → Option RedisSet → Bytes
sadd_reply ms none = wrong_type
sadd_reply ms (some s) = integer_ℕ (add_all 0 ms s).0

abbrev pub after_sadd : List Bytes → Option RedisObject → Option RedisObject
after_sadd ms none = some (record { value = set (add_all 0 ms []).1; expire_at = none })
after_sadd ms (some obj) = elim (as_set obj.value) [
  | none ↦ some obj
  | some s ↦ some (record obj { value = set (add_all 0 ms s).1 })
]

-- SADD by its loop
pub sadd_cmd_loop :
    (key m : Bytes) (rest : List Bytes) (j : Bytes) (now : ℤ) (db : Dict)
    → ((sadd_cmd (key ∷ m ∷ rest) now db).0 ≡ sadd_reply (m ∷ rest) (set_of (view db now key)))
      × (view (sadd_cmd (key ∷ m ∷ rest) now db).1 now j
          ≡ (if same key j then after_sadd (m ∷ rest) (view db now key) else view db now j))
unfolding sadd_cmd with_value create_set is_expired
sadd_cmd_loop key m rest j now db =
    let ms = m ∷ rest in
    let db₁ = check_expire db key now in
    let found = get_or_create_lem as_set create_set [] db key now in
    let kept = view-check_expire db key j now in
    let seen = view-check_expire db key key now in
    elim (Option-cases (view db now key)) [
      | inl e ↦
          let db₂ = Dict.set db₁ key create_set in
          let created = view-set db₁ key j create_set now in
          let created_here = view-set db₁ key key create_set now in
          let written = view-store db₂ key j (set (add_all 0 ms []).1) now in
          (
            ground (arith, found, e),
            ground (arith, found, e, kept, created, created_here, written, same_refl key),
          )
      | inr (obj, e) ↦ elim (Option-cases (as_set obj.value)) [
        | inl f ↦ (ground (arith, found, e, f), ground (arith, found, e, f, kept, same_iff key j))
        | inr (s, f) ↦
            let written = view-store db₁ key j (set (add_all 0 ms s).1) now in
            (ground (arith, found, e, f), ground (arith, found, e, f, kept, seen, written))
      ]
    ]

get_elem?-has :
    (s : RedisSet) (i : ℕ)
    → i < length s
    → (m : Bytes) × (get_elem? (keys s) i ≡ some m) × (has m s ≡ true)
unfolding has
get_elem?-has [] i h = absurd (omega arith)
get_elem?-has ((m, t) ∷ s) zero h = (m, refl, ground (arith, same_refl m))
get_elem?-has ((j, t) ∷ s) (suc i) h =
    let (m, at, there) = get_elem?-has s i (omega arith) in (m, at, ground arith)

-- no member stands twice
abbrev pub AreDistinct : List Bytes → Type 0
AreDistinct [] = Unit
AreDistinct (m ∷ ms) = (among m ms ≡ false) × AreDistinct ms

-- members of the set without `m` are members of the set other than `m`
All-has-erase :
    (m : Bytes) (s : RedisSet) (ms : List Bytes)
    → All (λ k. has k (erase m s) ≡ true) ms
    → (among m ms ≡ false) × All (λ k. has k s ≡ true) ms
All-has-erase m s [] h = (refl, tt)
All-has-erase m s (k ∷ ms) h =
    let (others, members) = All-has-erase m s ms h.1 in
    (
      ground (arith, others, has-erase m k s, same_iff m k, same_iff k m),
      (ground (arith, has-erase m k s), members),
    )

-- what holds of the members that are popped and of the set that is left
pub record IsPopped (n : ℕ) (s : RedisSet) (popped : List Bytes) (rest : RedisSet) : Type 0 where
  pub count : length popped ≡ n
  pub room : length rest + n ≡ length s
  pub kept : (j : Bytes) → has j rest ≡ (has j s && not (among j popped))
  pub members : All (λ m. has m s ≡ true) popped
  pub distinct : AreDistinct popped

IsPopped-cons :
    (n : ℕ) (s : RedisSet) (m : Bytes) (popped : List Bytes) (rest : RedisSet)
    → IsDistinct s
    → has m s ≡ true
    → IsPopped n (erase m s) popped rest
    → IsPopped (suc n) s (m ∷ popped) rest
IsPopped-cons n s m popped rest d there p =
    let (others, members) = All-has-erase m s popped p.members in
    record {
      count = ap suc p.count;
      room = ground (arith, p.room, length-erase {0} m s d);
      kept = λ j. ground (arith, p.kept j, has-erase m j s);
      members = (there, members);
      distinct = (others, p.distinct);
    }

-- the loop of SPOP, for no more members than there are
pub pop_members-IsPopped :
    (draw : Draws) (n : ℕ) (s : RedisSet)
    → n ≤ length s
    → IsDistinct s
    → IsPopped n s (pop_members draw n s).0 (pop_members draw n s).1
unfolding pop_members
pop_members-IsPopped draw zero s h d = record {
  count = refl;
  room = omega arith;
  kept = λ j. ground arith;
  members = tt;
  distinct = tt;
}
pop_members-IsPopped draw (suc n) s h d =
    let (m, at, there) =
      get_elem?-has s (draw n % length s) (mod-lt (draw n) {m = length s} (omega arith)) in
    let smaller = length-erase {0} m s d in
    rw (at, pop_members)
      (IsPopped-cons n s m _ _ d there (
        pop_members-IsPopped draw n (erase m s) (ground (arith, smaller)) (erase-IsDistinct m s d)))
