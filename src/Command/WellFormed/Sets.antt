-- ===== src/Command/WellFormed/Sets.antt =====
-- The set commands of src/command/set_cmd.cpp keep a keyspace well-formed.
use redis_like.Base.{
  ℕ, zero, suc, ◌%◌, ◌≡◌, false, List, [], ◌∷◌, Bytes, if◌then◌else◌, inl, inr, Option-cases, ℤ,
  pos, pos_part, ltb_ℤ, length, is_empty, put, erase, has, keys, get_elem?, IsDistinct,
  put-IsDistinct, erase-IsDistinct,
}
use redis_like.Text.{parse_int}
use redis_like.Object.{set, as_set, create_set}
use redis_like.Dict
use redis_like.Dict.{Dict}
use redis_like.Command.Context.{wrong_type, integer_ℕ, get_typed, get_or_create}
use redis_like.Command.WellFormed.{
  IsWellValue, IsWell, Keeps, store-IsWell, store_or_del-IsWell, check_expire-IsWell,
}
use redis_like.Command.WellFormed.Typed.{
  get_typed-Opened, get_or_create-Opened, elim-IsWell, set-holds,
}
use redis_like.Command.WellFormed.Typed.{number-IsWell, if-IsWell}
use redis_like.Command.Hashes.{erase_all}
use redis_like.Command.WellFormed.Hashes.{erase_all-IsDistinct, put-some}
use redis_like.Command.Sets.{
  Draws, RedisSet, add_all, sadd_cmd, srem_cmd, sismember_cmd, smembers_cmd, scard_cmd, pop_members,
  spop_with, spop_cmd,
}

add_all-well :
    (ms : List Bytes) (added : ℕ) (s : RedisSet)
    → IsDistinct s
    → IsDistinct (add_all added ms s).1
      × (is_empty s ≡ false → is_empty (add_all added ms s).1 ≡ false)
unfolding add_all
add_all-well [] added s d = (d, λ e. e)
add_all-well (m ∷ ms) added s d =
    let (d', filled) = add_all-well ms _ (put m tt s) (put-IsDistinct m tt s d) in
    (d', λ e. filled (put-some m tt s))

add_all-set :
    (m : Bytes) (ms : List Bytes) (s : RedisSet)
    → IsDistinct s
    → IsWellValue (set (add_all 0 (m ∷ ms) s).1)
unfolding add_all
add_all-set m ms s d =
    let (d', filled) =
      add_all-well ms (if has m s then 0 else 1) (put m tt s) (put-IsDistinct m tt s d) in
    (filled (put-some m tt s), d')

pub sadd_cmd-Keeps : Keeps sadd_cmd
unfolding sadd_cmd
sadd_cmd-Keeps [] now db w = w
sadd_cmd-Keeps (key ∷ []) now db w = w
sadd_cmd-Keeps (key ∷ m ∷ ms) now db w =
    let opened = get_or_create-Opened as_set IsDistinct set-holds create_set [] db key now tt w in
    let (found, db₁) = get_or_create as_set create_set [] db key now in
    elim-IsWell IsDistinct key found db₁ wrong_type
      (λ s.
        let (added, s') = add_all 0 (m ∷ ms) s in (integer_ℕ added, Dict.store db₁ key (set s')))
      opened
      (λ s d.
        store-IsWell db₁ key (set (add_all 0 (m ∷ ms) s).1) (add_all-set m ms s d) opened.others)

pub srem_cmd-Keeps : Keeps srem_cmd
unfolding srem_cmd
srem_cmd-Keeps [] now db w = w
srem_cmd-Keeps (key ∷ []) now db w = w
srem_cmd-Keeps (key ∷ m ∷ ms) now db w =
    let (opened, w') = get_typed-Opened as_set IsDistinct set-holds db key now w in
    let (found, db₁) = get_typed as_set db key now in
    elim-IsWell IsDistinct key found db₁ _
      (λ s.
        let (removed, s') = erase_all 0 (m ∷ ms) s in
        let db₂ = Dict.store db₁ key (set s') in
        (integer_ℕ removed, if is_empty s' then (Dict.del db₂ key).1 else db₂))
      opened
      (λ s d.
        let s' = (erase_all 0 (m ∷ ms) s).1 in
        store_or_del-IsWell (is_empty s') db₁ key (set s')
          (λ e. (e, erase_all-IsDistinct (m ∷ ms) 0 s d)) w')

pub sismember_cmd-Keeps : Keeps sismember_cmd
unfolding sismember_cmd get_typed
sismember_cmd-Keeps [] now db w = w
sismember_cmd-Keeps (key ∷ []) now db w = w
sismember_cmd-Keeps (key ∷ m ∷ _) now db w = check_expire-IsWell db key now w

pub smembers_cmd-Keeps : Keeps smembers_cmd
unfolding smembers_cmd get_typed
smembers_cmd-Keeps [] now db w = w
smembers_cmd-Keeps (key ∷ _) now db w = check_expire-IsWell db key now w

pub scard_cmd-Keeps : Keeps scard_cmd
unfolding scard_cmd get_typed
scard_cmd-Keeps [] now db w = w
scard_cmd-Keeps (key ∷ _) now db w = check_expire-IsWell db key now w

pop_members-IsDistinct :
    (draw : Draws) (n : ℕ) (s : RedisSet) → IsDistinct s → IsDistinct (pop_members draw n s).1
unfolding pop_members
pop_members-IsDistinct draw zero s d = d
pop_members-IsDistinct draw (suc n) s d =
    elim (Option-cases (get_elem? (keys s) (draw n % length s))) [
      | inl e ↦ rw (e, pop_members) d
      | inr (m, e) ↦
          rw (e, pop_members) (pop_members-IsDistinct draw n (erase m s) (erase-IsDistinct m s d))
    ]

spop_with-IsWell :
    (draw : Draws) (count : ℤ) (missing : Bytes) (reply : List Bytes → Bytes) (key : Bytes)
    (now : ℤ) (db : Dict)
    → IsWell db
    → IsWell (spop_with draw count missing reply key now db).1
unfolding spop_with
spop_with-IsWell draw count missing reply key now db w =
    let (opened, w') = get_typed-Opened as_set IsDistinct set-holds db key now w in
    let (found, db₁) = get_typed as_set db key now in
    let rounds =
      λ (s : RedisSet). (if ltb_ℤ (pos (length s)) count then length s else pos_part count) in
    elim-IsWell IsDistinct key found db₁ missing
      (λ s.
        let (popped, rest) = pop_members draw (rounds s) s in
        let db₂ = Dict.store db₁ key (set rest) in
        (reply popped, if is_empty rest then (Dict.del db₂ key).1 else db₂))
      opened
      (λ s d.
        let rest = (pop_members draw (rounds s) s).1 in
        store_or_del-IsWell (is_empty rest) db₁ key (set rest)
          (λ e. (e, pop_members-IsDistinct draw (rounds s) s d)) w')

pub spop_cmd-Keeps : (draw : Draws) → Keeps (spop_cmd draw)
unfolding spop_cmd
spop_cmd-Keeps draw [] now db w = w
spop_cmd-Keeps draw (key ∷ []) now db w = spop_with-IsWell draw (pos 1) _ _ key now db w
spop_cmd-Keeps draw (key ∷ count ∷ _) now db w =
    number-IsWell (parse_int count) _ _ db w
      (λ n. if-IsWell (ltb_ℤ n (pos 0)) _ _ w (spop_with-IsWell draw n _ _ key now db w))
