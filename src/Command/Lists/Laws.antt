-- ===== src/Command/Lists/Laws.antt =====
-- The list commands against the sequence of a key.
use mathlib.Core.List.{reverse, reverse-cons}
use redis_like.Base.{
  ℕ, zero, suc, ◌≡◌, refl, sym, ◌∙◌, fun_ext, Option, none, some, List, [], ◌∷◌, ◌++◌, append_assoc,
  append-nil, arith, Bytes, same, same_iff, same_refl, if◌then◌else◌, ℤ, pos, length, take, drop,
  Option-cases, inl, inr,
}
use redis_like.Text.{parse_int}
use redis_like.Resp.{null_bulk_string}
use redis_like.Object.{RedisObject, list, as_list, create_list, is_expired}
use redis_like.Dict
use redis_like.Dict.{Dict}
use redis_like.Expire.View.{view}
use redis_like.Command.Context.{check_expire, wrong_type, integer_ℕ}
use redis_like.Command.Views.{
  view-check_expire, view-set, view-del, view-store, with_value, get_typed_lem, get_or_create_lem,
}
use redis_like.Command.Lists.{
  push_front_all, push_back_all, push_with, lpush_cmd, rpush_cmd, pop_front, pop_back, pop_with,
  pop_cmd, lpop_cmd, rpop_cmd, array_reply,
}

pub push_back_all_lem : (vs l : List Bytes) → push_back_all vs l ≡ l ++ vs
unfolding push_back_all
push_back_all_lem [] l = sym (append-nil l)
push_back_all_lem (v ∷ vs) l = push_back_all_lem vs (l ++ v ∷ []) ∙ append_assoc l (v ∷ []) vs

pub push_front_all_lem : (vs l : List Bytes) → push_front_all vs l ≡ reverse vs ++ l
unfolding push_front_all
push_front_all_lem [] l = refl
push_front_all_lem (v ∷ vs) l =
    push_front_all_lem vs (v ∷ l) ∙ sym (rw reverse-cons (append_assoc (reverse vs) (v ∷ []) l))

pub pop_front_lem : (n : ℕ) (l : List Bytes) → pop_front n l ≡ (take n l, drop n l)
unfolding pop_front
pop_front_lem zero l = refl
pop_front_lem (suc n) [] = refl
pop_front_lem (suc n) (v ∷ l) = rw (pop_front_lem n l)

pub pop_back_lem :
    (n : ℕ) (l : List Bytes) → pop_back n l ≡ (take n (reverse l), reverse (drop n (reverse l)))
unfolding pop_back
pop_back_lem n l = rw (pop_front_lem n (reverse l))

-- What is seen under the key of a push: the sequence of a list with the items on it, with its expiry
-- time, or a new list; an object of another type is left.
abbrev pub after_push : (List Bytes → List Bytes) → Option RedisObject → Option RedisObject
after_push push none = some (record { value = list (push []); expire_at = none })
after_push push (some obj) = elim (as_list obj.value) [
  | none ↦ some obj
  | some l ↦ some (record obj { value = list (push l) })
]

abbrev pub push_reply : (List Bytes → List Bytes) → Option RedisObject → Bytes
push_reply push none = integer_ℕ (length (push []))
push_reply push (some obj) = elim (as_list obj.value) [
  | none ↦ wrong_type
  | some l ↦ integer_ℕ (length (push l))
]

pub push_with_lem :
    (push : List Bytes → List Bytes) (key j : Bytes) (now : ℤ) (db : Dict)
    → ((push_with push key now db).0 ≡ push_reply push (view db now key))
      × (view (push_with push key now db).1 now j
          ≡ (if same key j then after_push push (view db now key) else view db now j))
unfolding push_with with_value create_list is_expired
push_with_lem push key j now db =
    let db₁ = check_expire db key now in
    let found = get_or_create_lem as_list create_list [] db key now in
    let kept = view-check_expire db key j now in
    let seen = view-check_expire db key key now in
    elim (Option-cases (view db now key)) [
      | inl e ↦
          let db₂ = Dict.set db₁ key create_list in
          let created = view-set db₁ key j create_list now in
          let created_here = view-set db₁ key key create_list now in
          let written = view-store db₂ key j (list (push [])) now in
          (
            ground (arith, found, e),
            ground (arith, found, e, kept, created, created_here, written, same_refl key),
          )
      | inr (obj, e) ↦ elim (Option-cases (as_list obj.value)) [
        | inl f ↦ (ground (arith, found, e, f), ground (arith, found, e, f, kept, same_iff key j))
        | inr (l, f) ↦
            let written = view-store db₁ key j (list (push l)) now in
            (ground (arith, found, e, f), ground (arith, found, e, f, kept, seen, written))
      ]
    ]

-- What is seen under the key of a pop: what is left of the sequence, and nothing once it is empty.
abbrev pub left_over : List Bytes → RedisObject → Option RedisObject
left_over [] obj = none
left_over (v ∷ l) obj = some (record obj { value = list (v ∷ l) })

abbrev pub after_pop :
    (List Bytes → List Bytes × List Bytes) → Option RedisObject → Option RedisObject
after_pop pop none = none
after_pop pop (some obj) = elim (as_list obj.value) [
  | none ↦ some obj
  | some l ↦ left_over (pop l).1 obj
]

abbrev pub pop_reply :
    (List Bytes → List Bytes × List Bytes) → (List Bytes → Bytes) → Option RedisObject → Bytes
pop_reply pop reply none = null_bulk_string
pop_reply pop reply (some obj) = elim (as_list obj.value) [
  | none ↦ null_bulk_string
  | some l ↦ reply (pop l).0
]

pub pop_with_lem :
    (pop : ℕ → List Bytes → List Bytes × List Bytes) (n : ℕ) (reply : List Bytes → Bytes)
    (key j : Bytes) (now : ℤ) (db : Dict)
    → ((pop_with pop n reply key now db).0 ≡ pop_reply (pop n) reply (view db now key))
      × (view (pop_with pop n reply key now db).1 now j
          ≡ (if same key j then after_pop (pop n) (view db now key) else view db now j))
unfolding pop_with with_value
pop_with_lem pop n reply key j now db =
    let db₁ = check_expire db key now in
    let found = get_typed_lem as_list db key now in
    let kept = view-check_expire db key j now in
    let seen = view-check_expire db key key now in
    elim (Option-cases (view db now key)) [
      | inl e ↦ (ground (arith, found, e), ground (arith, found, e, kept, same_iff key j))
      | inr (obj, e) ↦ elim (Option-cases (as_list obj.value)) [
        | inl f ↦ (ground (arith, found, e, f), ground (arith, found, e, f, kept, same_iff key j))
        | inr (l, f) ↦
            let db₂ = Dict.store db₁ key (list (pop n l).1) in
            let written = view-store db₁ key j (list (pop n l).1) now in
            let gone = view-del db₂ key j now in
            (ground (arith, found, e, f), ground (arith, found, e, f, kept, seen, written, gone))
      ]
    ]

pub rpush_cmd_lem :
    (key v : Bytes) (vs : List Bytes) (j : Bytes) (now : ℤ) (db : Dict)
    → ((rpush_cmd (key ∷ v ∷ vs) now db).0 ≡ push_reply (λ l. l ++ v ∷ vs) (view db now key))
      × (view (rpush_cmd (key ∷ v ∷ vs) now db).1 now j
          ≡ (if same key j then after_push (λ l. l ++ v ∷ vs) (view db now key) else view db now j))
unfolding rpush_cmd
rpush_cmd_lem key v vs j now db =
    rw (fun_ext (push_back_all_lem (v ∷ vs))) (push_with_lem (λ l. l ++ v ∷ vs) key j now db)

lpush_cmd_lem :
    (key v : Bytes) (vs : List Bytes) (j : Bytes) (now : ℤ) (db : Dict)
    → ((lpush_cmd (key ∷ v ∷ vs) now db).0
        ≡ push_reply (λ l. reverse (v ∷ vs) ++ l) (view db now key))
      × (view (lpush_cmd (key ∷ v ∷ vs) now db).1 now j ≡ (
          if same key j
          then after_push (λ l. reverse (v ∷ vs) ++ l) (view db now key)
          else view db now j))
unfolding lpush_cmd
lpush_cmd_lem key v vs j now db =
    rw (fun_ext (push_front_all_lem (v ∷ vs)))
      (push_with_lem (λ l. reverse (v ∷ vs) ++ l) key j now db)

-- RPUSH appends its values in their order to the sequence of the key, LPUSH puts them one by one in
-- front, so that the last one is the first; each replies with the length of the sequence, creates a
-- missing list, keeps the expiry time, leaves an object of another type as it is with an error, and
-- changes nothing that is seen under another key.
pub rpush_lpush_lem :
    (key v : Bytes) (vs : List Bytes) (j : Bytes) (now : ℤ) (db : Dict)
    → ((rpush_cmd (key ∷ v ∷ vs) now db).0 ≡ push_reply (λ l. l ++ v ∷ vs) (view db now key))
      × (view (rpush_cmd (key ∷ v ∷ vs) now db).1 now j
          ≡ (if same key j then after_push (λ l. l ++ v ∷ vs) (view db now key) else view db now j))
      × ((lpush_cmd (key ∷ v ∷ vs) now db).0
          ≡ push_reply (λ l. reverse (v ∷ vs) ++ l) (view db now key))
      × (view (lpush_cmd (key ∷ v ∷ vs) now db).1 now j ≡ (
          if same key j
          then after_push (λ l. reverse (v ∷ vs) ++ l) (view db now key)
          else view db now j))
rpush_lpush_lem key v vs j now db =
    let r = rpush_cmd_lem key v vs j now db in
    let l = lpush_cmd_lem key v vs j now db in (r.0, r.1, l.0, l.1)

pop_cmd-count :
    (pop : ℕ → List Bytes → List Bytes × List Bytes) (arity key count : Bytes) (n : ℕ) (now : ℤ)
    (db : Dict)
    → parse_int count ≡ some (pos n)
    → pop_cmd pop arity (key ∷ count ∷ []) now db ≡ pop_with pop n array_reply key now db
unfolding pop_cmd
pop_cmd-count pop arity key count n now db parsed = ground arith

-- LPOP with a count that is a number of 0 or more takes as many items from the front as there are,
-- up to the count, and replies with them in an array; RPOP takes them from the back, the last one
-- first. What is left stays under the key, which goes with its last item; a missing key or another
-- type is left with a null reply.
pub lpop_rpop_lem :
    (key count j : Bytes) (n : ℕ) (now : ℤ) (db : Dict)
    → parse_int count ≡ some (pos n)
    → ((lpop_cmd (key ∷ count ∷ []) now db).0
        ≡ pop_reply (λ l. (take n l, drop n l)) array_reply (view db now key))
      × (view (lpop_cmd (key ∷ count ∷ []) now db).1 now j ≡ (
          if same key j
          then after_pop (λ l. (take n l, drop n l)) (view db now key)
          else view db now j))
      × ((rpop_cmd (key ∷ count ∷ []) now db).0
          ≡ pop_reply
              (λ l. (take n (reverse l), reverse (drop n (reverse l))))
              array_reply
              (view db now key))
      × (view (rpop_cmd (key ∷ count ∷ []) now db).1 now j ≡ (
          if same key j
          then after_pop (λ l. (take n (reverse l), reverse (drop n (reverse l)))) (view db now key)
          else view db now j))
lpop_rpop_lem key count j n now db parsed =
    let (reply_l, view_l) = pop_with_lem pop_front n array_reply key j now db in
    let (reply_r, view_r) = pop_with_lem pop_back n array_reply key j now db in
    let front = fun_ext (pop_front_lem n) in
    let back = fun_ext (pop_back_lem n) in
    unfold lpop_cmd rpop_cmd in
    rw
      (
        pop_cmd-count pop_front _ key count n now db parsed,
        pop_cmd-count pop_back _ key count n now db parsed,
      )
      (rw front at reply_l, rw front at view_l, rw back at reply_r, rw back at view_r)
