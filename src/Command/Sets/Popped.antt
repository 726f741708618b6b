-- ===== src/Command/Sets/Popped.antt =====
-- What SPOP of src/command/set_cmd.cpp replies and leaves, whatever is drawn.
use mathlib.Core.Path.{subst}
use redis_like.Base.{
  ℕ, ◌≡◌, refl, sym, ap, Option, none, some, List, [], ◌∷◌, map, arith, Bytes, same, same_iff,
  if◌then◌else◌, ℤ, pos, pos_part, ltb_ℤ, length, is_empty, IsDistinct, min, Option-cases, inl, inr,
}
use redis_like.Resp.{bulk_string, null_bulk_string, array, empty_array}
use redis_like.Text.{parse_int}
use redis_like.Object.{RedisObject, set, as_set}
use redis_like.Dict
use redis_like.Dict.{Dict}
use redis_like.Expire.View.{view}
use redis_like.Command.Context.{check_expire, typed}
use redis_like.Command.Views.{view-check_expire, view-store, view-del, with_value, get_typed_lem}
use redis_like.Command.Sets.{RedisSet, Draws, pop_members, spop_with, spop_cmd, first_reply}
use redis_like.Command.Sets.Laws.{IsPopped, pop_members-IsPopped}

-- what is seen at the key before SPOP, the reply, and what is seen after it
abbrev pub IsAfterSpop :
    ℕ → Bytes → (List Bytes → Bytes) → Option RedisObject → Bytes → Option RedisObject → Type 0
IsAfterSpop n missing reply none r o = (r ≡ missing) × (o ≡ none)
IsAfterSpop n missing reply (some obj) r o = elim (as_set obj.value) [
  | none ↦ (r ≡ missing) × (o ≡ some obj)
  | some s ↦
      (popped : List Bytes) × (rest : RedisSet) × IsPopped (min n (length s)) s popped rest
      × (r ≡ reply popped)
      × (o ≡ (if is_empty rest then none else some (record obj { value = set rest })))
]

-- no member stands twice in a set that is seen
abbrev pub HasMembersOnce : Option RedisObject → Type 0
HasMembersOnce none = Unit
HasMembersOnce (some obj) = elim (as_set obj.value) [ none ↦ Unit | some s ↦ IsDistinct s ]

-- the same, by the loop
abbrev popped_of : Draws → ℕ → RedisSet → List Bytes × RedisSet
popped_of draw n s = pop_members draw (min n (length s)) s

abbrev spop_reply : Draws → ℕ → Bytes → (List Bytes → Bytes) → Option RedisObject → Bytes
spop_reply draw n missing reply o = elim (typed as_set o) [
  | none ↦ missing
  | some s ↦ reply (popped_of draw n s).0
]

abbrev after_spop : Draws → ℕ → Option RedisObject → Option RedisObject
after_spop draw n none = none
after_spop draw n (some obj) = elim (as_set obj.value) [
  | none ↦ some obj
  | some s ↦
      if is_empty (popped_of draw n s).1
      then none
      else some (record obj { value = set (popped_of draw n s).1 })
]

clamped : (n k : ℕ) → (if ltb_ℤ (pos k) (pos n) then k else pos_part (pos n)) ≡ min n k
clamped n k = ground arith

spop_with_loop :
    (draw : Draws) (n : ℕ) (missing : Bytes) (reply : List Bytes → Bytes) (key j : Bytes) (now : ℤ)
    (db : Dict)
    → ((spop_with draw (pos n) missing reply key now db).0
        ≡ spop_reply draw n missing reply (view db now key))
      × (view (spop_with draw (pos n) missing reply key now db).1 now j
          ≡ (if same key j then after_spop draw n (view db now key) else view db now j))
unfolding spop_with with_value
spop_with_loop draw n missing reply key j now db =
    let db₁ = check_expire db key now in
    let found = get_typed_lem as_set db key now in
    let kept = view-check_expire db key j now in
    let seen = view-check_expire db key key now in
    elim (Option-cases (view db now key)) [
      | inl e ↦ (ground (arith, found, e), ground (arith, found, e, kept, same_iff key j))
      | inr (obj, e) ↦ elim (Option-cases (as_set obj.value)) [
        | inl f ↦ (ground (arith, found, e, f), ground (arith, found, e, f, kept, same_iff key j))
        | inr (s, f) ↦
            let few = clamped n (length s) in
            let rest = set (popped_of draw n s).1 in
            let db₂ = Dict.store db₁ key rest in
            let written = view-store db₁ key j rest now in
            let gone = view-del db₂ key j now in
            (
              rw (spop_with, found, e, f, few) (rw (spop_reply, f) refl),
              rw (spop_with, found, e, f, few) (ground (arith, kept, seen, e, f, written, gone)),
            )
      ]
    ]

popped_of-IsPopped :
    (draw : Draws) (n : ℕ) (s : RedisSet)
    → IsDistinct s
    → IsPopped (min n (length s)) s (popped_of draw n s).0 (popped_of draw n s).1
popped_of-IsPopped draw n s d = pop_members-IsPopped draw (min n (length s)) s (omega arith) d

after_spop-IsAfterSpop :
    (draw : Draws) (n : ℕ) (missing : Bytes) (reply : List Bytes → Bytes) (o : Option RedisObject)
    → HasMembersOnce o
    → IsAfterSpop n missing reply o (spop_reply draw n missing reply o) (after_spop draw n o)
after_spop-IsAfterSpop draw n missing reply none d = (refl, refl)
after_spop-IsAfterSpop draw n missing reply (some obj) d = elim (Option-cases (as_set obj.value)) [
  | inl e ↦ rw (IsAfterSpop, e) (rw (spop_reply, e) refl, rw (after_spop, e) refl)
  | inr (s, e) ↦
      let distinct : IsDistinct s = rw (HasMembersOnce, e) at d in
      rw (IsAfterSpop, e)
        (
          (popped_of draw n s).0,
          (popped_of draw n s).1,
          popped_of-IsPopped draw n s distinct,
          rw (spop_reply, e) refl,
          rw (after_spop, e) refl,
        )
]

-- the number asked for: one without a count
abbrev pub asked : List Bytes → Option ℤ
asked [] = some (pos 1)
asked (count ∷ _) = parse_int count

-- the reply for no member
abbrev pub missing_reply : List Bytes → Bytes
missing_reply [] = null_bulk_string
missing_reply (count ∷ _) = empty_array

abbrev pub popped_reply : List Bytes → List Bytes → Bytes
popped_reply [] popped = first_reply popped
popped_reply (count ∷ _) popped = array (map bulk_string popped)

spop_cmd-pos :
    (draw : Draws) (key : Bytes) (counts : List Bytes) (now : ℤ) (db : Dict) (n : ℕ)
    → asked counts ≡ some (pos n)
    → spop_cmd draw (key ∷ counts) now db
      ≡ spop_with draw (pos n) (missing_reply counts) (popped_reply counts) key now db
unfolding spop_cmd
spop_cmd-pos draw key [] now db n e =
    let one : 1 ≡ n = ground arith in
    ap (λ n. spop_with draw (pos n) null_bulk_string first_reply key now db) one
spop_cmd-pos draw key (count ∷ rest) now db n e = ground (arith, e)

-- SPOP of one member, or of as many as a count that is not negative says, where no member stands twice
-- in the set of the key, whatever is drawn. It pops the smaller of that number and of the size of the
-- set: different members, which are the reply, and the set is left with exactly the others and its
-- time; the key goes with the last member. A missing key and an object of another type stay, and the
-- reply is that of no member. What is seen elsewhere stays.
pub spop_cmd_lem :
    (draw : Draws) (key : Bytes) (counts : List Bytes) (j : Bytes) (now : ℤ) (db : Dict) (n : ℕ)
    → asked counts ≡ some (pos n)
    → HasMembersOnce (view db now key)
    → let r = spop_cmd draw (key ∷ counts) now db in
      (o : Option RedisObject) × IsAfterSpop n
        (missing_reply counts)
        (popped_reply counts)
        (view db now key)
        r.0
        o
      × (view r.1 now j ≡ (if same key j then o else view db now j))
spop_cmd_lem draw key counts j now db n e d =
    let missing = missing_reply counts in
    let reply = popped_reply counts in
    let seen = view db now key in
    let (replied, left) = spop_with_loop draw n missing reply key j now db in
    subst
      (λ (r : Bytes × Dict).
        (o : Option RedisObject) × IsAfterSpop n missing reply seen r.0 o
        × (view r.1 now j ≡ (if same key j then o else view db now j)))
      (sym (spop_cmd-pos draw key counts now db n e))
      (
        after_spop draw n seen,
        subst (λ r. IsAfterSpop n missing reply seen r (after_spop draw n seen)) (sym replied)
            (after_spop-IsAfterSpop draw n missing reply seen d),
        left,
      )
