-- ===== src/Command/WellFormed/Lists.antt =====
-- The list commands of src/command/list_cmd.cpp keep a keyspace well-formed.
use redis_like.Base.{
  ℕ, ◌≡◌, refl, false, List, [], ◌∷◌, ◌++◌, Bytes, if◌then◌else◌, ℤ, pos, pos_part, ltb_ℤ, length,
  is_empty,
}
use redis_like.Text.{parse_int}
use redis_like.Object.{list, as_list, create_list}
use redis_like.Dict
use redis_like.Dict.{Dict}
use redis_like.Command.Context.{wrong_type, integer_ℕ, get_typed, get_or_create}
use redis_like.Command.Lists.{
  push_front_all, push_back_all, push_with, lpush_cmd, rpush_cmd, pop_front, pop_back, pop_with,
  pop_cmd, lpop_cmd, rpop_cmd, llen_cmd, range_with, lrange_cmd, lindex_cmd,
}
use redis_like.Command.WellFormed.{
  IsWell, Keeps, store-IsWell, store_or_del-IsWell, check_expire-IsWell,
}
use redis_like.Command.WellFormed.Typed.{
  get_typed-Opened, get_or_create-Opened, elim-IsWell, list-holds,
}
use redis_like.Command.WellFormed.Typed.{number-IsWell, if-IsWell}

push_front_all-some :
    (vs l : List Bytes) → is_empty l ≡ false → is_empty (push_front_all vs l) ≡ false
unfolding push_front_all
push_front_all-some [] l e = e
push_front_all-some (v ∷ vs) l e = push_front_all-some vs (v ∷ l) refl

snoc-some : (l : List Bytes) (v : Bytes) → is_empty (l ++ v ∷ []) ≡ false
snoc-some [] v = refl
snoc-some (x ∷ l) v = refl

push_back_all-some :
    (vs l : List Bytes) → is_empty l ≡ false → is_empty (push_back_all vs l) ≡ false
unfolding push_back_all
push_back_all-some [] l e = e
push_back_all-some (v ∷ vs) l e = push_back_all-some vs (l ++ v ∷ []) (snoc-some l v)

push_with-IsWell :
    (push : List Bytes → List Bytes) (key : Bytes) (now : ℤ) (db : Dict)
    → ((l : List Bytes) → is_empty (push l) ≡ false)
    → IsWell db
    → IsWell (push_with push key now db).1
unfolding push_with create_list
push_with-IsWell push key now db some_pushed w =
    let opened =
      get_or_create-Opened as_list (λ _. Unit {0}) list-holds create_list [] db key now tt w in
    let (found, db₁) = get_or_create as_list create_list [] db key now in
    elim-IsWell (λ _. Unit {0}) key found db₁ wrong_type
      (λ l. (integer_ℕ (length (push l)), Dict.store db₁ key (list (push l)))) opened
      (λ l r. store-IsWell db₁ key (list (push l)) (some_pushed l) opened.others)

pub lpush_cmd-Keeps : Keeps lpush_cmd
unfolding lpush_cmd push_front_all
lpush_cmd-Keeps [] now db w = w
lpush_cmd-Keeps (key ∷ []) now db w = w
lpush_cmd-Keeps (key ∷ v ∷ vs) now db w =
    push_with-IsWell (push_front_all (v ∷ vs)) key now db (λ l. push_front_all-some vs (v ∷ l) refl)
      w

pub rpush_cmd-Keeps : Keeps rpush_cmd
unfolding rpush_cmd push_back_all
rpush_cmd-Keeps [] now db w = w
rpush_cmd-Keeps (key ∷ []) now db w = w
rpush_cmd-Keeps (key ∷ v ∷ vs) now db w =
    push_with-IsWell (push_back_all (v ∷ vs)) key now db
      (λ l. push_back_all-some vs (l ++ v ∷ []) (snoc-some l v)) w

pop_with-IsWell :
    (pop : ℕ → List Bytes → List Bytes × List Bytes) (count : ℕ) (reply : List Bytes → Bytes)
    (key : Bytes) (now : ℤ) (db : Dict)
    → IsWell db
    → IsWell (pop_with pop count reply key now db).1
unfolding pop_with
pop_with-IsWell pop count reply key now db w =
    let (opened, w') = get_typed-Opened as_list (λ _. Unit {0}) list-holds db key now w in
    let (found, db₁) = get_typed as_list db key now in
    elim-IsWell (λ _. Unit {0}) key found db₁ _
      (λ l.
        let (popped, rest) = pop count l in
        let db₂ = Dict.store db₁ key (list rest) in
        (reply popped, if is_empty rest then (Dict.del db₂ key).1 else db₂))
      opened
      (λ l r.
        store_or_del-IsWell (is_empty (pop count l).1) db₁ key (list (pop count l).1) (λ e. e) w')

pop_cmd-Keeps :
    (pop : ℕ → List Bytes → List Bytes × List Bytes) (arity : Bytes) → Keeps (pop_cmd pop arity)
unfolding pop_cmd
pop_cmd-Keeps pop arity [] now db w = w
pop_cmd-Keeps pop arity (key ∷ []) now db w = pop_with-IsWell pop 1 _ key now db w
pop_cmd-Keeps pop arity (key ∷ count ∷ _) now db w =
    number-IsWell (parse_int count) _ _ db w
      (λ n. if-IsWell (ltb_ℤ n (pos 0)) _ _ w (pop_with-IsWell pop (pos_part n) _ key now db w))

pub lpop_cmd-Keeps : Keeps lpop_cmd
unfolding lpop_cmd
lpop_cmd-Keeps = pop_cmd-Keeps pop_front _

pub rpop_cmd-Keeps : Keeps rpop_cmd
unfolding rpop_cmd
rpop_cmd-Keeps = pop_cmd-Keeps pop_back _

pub llen_cmd-Keeps : Keeps llen_cmd
unfolding llen_cmd get_typed
llen_cmd-Keeps [] now db w = w
llen_cmd-Keeps (key ∷ _) now db w = check_expire-IsWell db key now w

pub lrange_cmd-Keeps : Keeps lrange_cmd
unfolding lrange_cmd range_with get_typed
lrange_cmd-Keeps [] now db w = w
lrange_cmd-Keeps (key ∷ []) now db w = w
lrange_cmd-Keeps (key ∷ start ∷ []) now db w = w
lrange_cmd-Keeps (key ∷ start ∷ stop ∷ _) now db w = number-IsWell (parse_int start) _ _ db w (λ i.
    number-IsWell (parse_int stop) _ (λ j. range_with i j key now db) db w
      (λ j. check_expire-IsWell db key now w))

pub lindex_cmd-Keeps : Keeps lindex_cmd
unfolding lindex_cmd get_typed
lindex_cmd-Keeps [] now db w = w
lindex_cmd-Keeps (key ∷ []) now db w = w
lindex_cmd-Keeps (key ∷ idx ∷ _) now db w =
    number-IsWell (parse_int idx) _ _ db w (λ i. check_expire-IsWell db key now w)
