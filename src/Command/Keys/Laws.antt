-- ===== src/Command/Keys/Laws.antt =====
-- The key commands against what a client can see of the keyspace.
use redis_like.Base.{
  among, ℕ, suc, ◌+◌, ◌-◌, ◌*◌, ◌/◌, ◌^◌, ◌<◌, ◌≡◌, refl, ◌∙◌, ap, Bool, true, false, ◌&&◌, Option,
  none, some, List, [], ◌∷◌, arith, Bytes, same, same_refl, if◌then◌else◌, ℤ, pos, is_some,
  Option-cases, inl, inr, ltb_ℤ, erase, IsDistinct, erase-IsDistinct, length-erase,
}
use redis_like.Resp.{integer}
use redis_like.Text.{to_string}
use redis_like.Text.RoundTrip.{parse_int-to_string}
use redis_like.Object.{RedisObject}
use redis_like.Dict
use redis_like.Dict.{Dict}
use redis_like.Expire.{set_expire, remove_expire, get_ttl}
use redis_like.Expire.View.{live, view}
use redis_like.Expire.Times.{after_seconds-pos, remaining-pos, live_until}
use redis_like.Command.Context.{check_expire, integer_ℕ}
use redis_like.Command.Views.{
  view-check_expire, get-check_expire, exists-check_expire, view-set, view-del,
}
use redis_like.Command.Keys.{
  del_keys, del_cmd, exists_keys, exists_cmd, expire_with, expire_cmd, ttl_cmd,
}

abbrev pub to_ℕ : Bool → ℕ
to_ℕ true = 1
to_ℕ false = 0

-- how many of the keys, repeated ones included, hold an object that is seen
abbrev pub count_seen : List Bytes → ℤ → Dict → ℕ
count_seen [] now db = 0
count_seen (key ∷ keys) now db = to_ℕ (is_some (view db now key)) + count_seen keys now db

count_seen-check_expire :
    (keys : List Bytes) (key : Bytes) (now : ℤ) (db : Dict)
    → count_seen keys now (check_expire db key now) ≡ count_seen keys now db
count_seen-check_expire [] key now db = refl
count_seen-check_expire (k ∷ keys) key now db =
    rw (view-check_expire db key k now) (omega (arith, count_seen-check_expire keys key now db))

exists_keys_lem :
    (count : ℕ) (keys : List Bytes) (now : ℤ) (db : Dict)
    → (exists_keys count keys now db).0 ≡ count + count_seen keys now db
unfolding exists_keys
exists_keys_lem count [] now db = omega arith
exists_keys_lem count (key ∷ keys) now db = ground (
  arith,
  exists_keys_lem count keys now (check_expire db key now),
  exists_keys_lem (suc count) keys now (check_expire db key now),
  exists-check_expire db key now,
  count_seen-check_expire keys key now db,
)

view-exists_keys :
    (keys : List Bytes) (count : ℕ) (now : ℤ) (db : Dict) (j : Bytes)
    → view (exists_keys count keys now db).1 now j ≡ view db now j
unfolding exists_keys
view-exists_keys [] count now db j = refl
view-exists_keys (key ∷ keys) count now db j =
    view-exists_keys keys _ now (check_expire db key now) j ∙ view-check_expire db key j now

-- the reply of EXISTS and what is seen after it
exists_cmd_lem :
    (key : Bytes) (keys : List Bytes) (now : ℤ) (db : Dict) (j : Bytes)
    → ((exists_cmd (key ∷ keys) now db).0 ≡ integer_ℕ (count_seen (key ∷ keys) now db))
      × (view (exists_cmd (key ∷ keys) now db).1 now j ≡ view db now j)
unfolding exists_cmd
exists_cmd_lem key keys now db j = (
  ap integer_ℕ (exists_keys_lem 0 (key ∷ keys) now db ∙ omega arith),
  view-exists_keys (key ∷ keys) 0 now db j,
)

view-del_keys :
    (keys : List Bytes) (count : ℕ) (now : ℤ) (db : Dict) (j : Bytes)
    → view (del_keys count keys db).1 now j ≡ (if among j keys then none else view db now j)
unfolding del_keys
view-del_keys [] count now db j = refl
view-del_keys (key ∷ keys) count now db j =
    view-del_keys keys _ now (Dict.del db key).1 j ∙ rw (view-del db key j now) (ground arith)

size-del_keys :
    (keys : List Bytes) (count : ℕ) (db : Dict)
    → IsDistinct db
    → (del_keys count keys db).0 + Dict.size (del_keys count keys db).1 ≡ count + Dict.size db
unfolding del_keys Dict.del
size-del_keys [] count db d = refl
size-del_keys (key ∷ keys) count db d = ground (
  arith,
  size-del_keys keys count (erase key db) (erase-IsDistinct key db d),
  size-del_keys keys (suc count) (erase key db) (erase-IsDistinct key db d),
  length-erase {0} key db d,
)

-- the reply of DEL and what is seen after it
del_cmd_lem :
    (key : Bytes) (keys : List Bytes) (now : ℤ) (db : Dict) (j : Bytes)
    → IsDistinct db
    → (n : ℕ) × ((del_cmd (key ∷ keys) now db).0 ≡ integer_ℕ n)
      × (n + Dict.size (del_cmd (key ∷ keys) now db).1 ≡ Dict.size db)
      × (view (del_cmd (key ∷ keys) now db).1 now j
          ≡ (if among j (key ∷ keys) then none else view db now j))
unfolding del_cmd
del_cmd_lem key keys now db j d = (
  (del_keys 0 (key ∷ keys) db).0,
  refl,
  size-del_keys (key ∷ keys) 0 db d ∙ omega arith,
  view-del_keys (key ∷ keys) 0 now db j,
)

-- On a keyspace with distinct keys: EXISTS replies with the number of its keys that hold an object that
-- has not expired, a key that is named twice counting twice, and changes nothing that is seen; DEL
-- leaves nothing to be seen under its keys and changes nothing under others, and it replies with the
-- number of entries that it took from the dictionary, those of expired objects among them.
pub exists_del_cmd_lem :
    (key : Bytes) (keys : List Bytes) (now : ℤ) (db : Dict) (j : Bytes)
    → IsDistinct db
    → ((exists_cmd (key ∷ keys) now db).0 ≡ integer_ℕ (count_seen (key ∷ keys) now db))
      × (view (exists_cmd (key ∷ keys) now db).1 now j ≡ view db now j)
      × ((n : ℕ) × ((del_cmd (key ∷ keys) now db).0 ≡ integer_ℕ n)
          × (n + Dict.size (del_cmd (key ∷ keys) now db).1 ≡ Dict.size db)
          × (view (del_cmd (key ∷ keys) now db).1 now j
              ≡ (if among j (key ∷ keys) then none else view db now j)))
exists_del_cmd_lem key keys now db j d =
    let (reply, seen) = exists_cmd_lem key keys now db j in
    (reply, seen, del_cmd_lem key keys now db j d)

-- an object given a time, as it is seen
pub timed : ℤ → ℤ → Option RedisObject → Option RedisObject
timed until now none = none
timed until now (some obj) = live now (some (set_expire obj until))

-- EXPIRE and PEXPIRE behind their numbers: if the number is positive, what is seen under the key
-- gets the time that is given, and is seen if it is not over; if it is not positive, the key is
-- deleted. The reply says whether there was something to be seen, and nothing changes under other
-- keys.
pub expire_with_lem :
    (key j : Bytes) (n until now : ℤ) (db : Dict)
    → ((expire_with key n until now db).0 ≡ integer_ℕ (to_ℕ (is_some (view db now key))))
      × (view (expire_with key n until now db).1 now j ≡ (
          if same key j && is_some (view db now key)
          then (if ltb_ℤ (pos 0) n then timed until now (view db now key) else none)
          else view db now j))
unfolding expire_with timed
expire_with_lem key j n until now db =
    let db₁ = check_expire db key now in
    let seen = get-check_expire db key now in
    let kept = view-check_expire db key j now in
    elim (Option-cases (view db now key)) [
      | inl e ↦ (ground (arith, seen, e), ground (arith, seen, e, kept))
      | inr (obj, e) ↦
          let given = view-set db₁ key j (set_expire obj until) now in
          let cleared = view-set db₁ key j (remove_expire obj) now in
          let gone = view-del (Dict.set db₁ key (remove_expire obj)) key j now in
          (ground (arith, seen, e), ground (arith, seen, e, kept, given, cleared, gone))
    ]

-- TTL replies by what is seen at its time.
pub reply-ttl_cmd :
    (key : Bytes) (rest : List Bytes) (now : ℤ) (db : Dict)
    → (ttl_cmd (key ∷ rest) now db).0 ≡ integer (get_ttl (view db now key) now)
unfolding ttl_cmd
reply-ttl_cmd key rest now db = ap (λ o. integer (get_ttl o now)) (get-check_expire db key now)

expire_cmd-found :
    (key : Bytes) (n t : ℕ) (db : Dict) (obj : RedisObject)
    → view db (pos t) key ≡ some obj
    → 0 < n
    → t + 1_000_000_000 * n < 2 ^ 63
    → (expire_cmd (key ∷ to_string (pos n) ∷ []) (pos t) db).1
      ≡ Dict.set (check_expire db key (pos t)) key (set_expire obj (pos (t + 1_000_000_000 * n)))
expire_cmd-found key n t db obj seen h fits =
    unfold expire_cmd in
    rw (parse_int-to_string (pos n) (omega arith, omega arith), expire_cmd)
      (unfold expire_with in
        rw (get-check_expire db key (pos t) ∙ seen, expire_with, after_seconds-pos t n fits)
          (ground arith))

-- EXPIRE with a positive number at a time t, of a key under which something is seen, and TTL of
-- the key at a time t' before its end: the whole seconds that are left, if the end is an `int64_t`
-- of nanoseconds.
pub ttl-expire_cmd :
    (key : Bytes) (n t t' : ℕ) (db : Dict) (obj : RedisObject)
    → view db (pos t) key ≡ some obj
    → 0 < n
    → t + 1_000_000_000 * n < 2 ^ 63
    → t' < t + 1_000_000_000 * n
    → (ttl_cmd (key ∷ []) (pos t') (expire_cmd (key ∷ to_string (pos n) ∷ []) (pos t) db).1).0
      ≡ integer_ℕ ((t + 1_000_000_000 * n - t') / 1_000_000_000)
ttl-expire_cmd key n t t' db obj seen h fits before =
    reply-ttl_cmd key [] (pos t') _
    ∙ rw (expire_cmd-found key n t db obj seen h fits, view-set)
        (rw (same_refl key) (
          unfold set_expire in
          rw (live_until obj.value (t + 1_000_000_000 * n) t') (
            unfold get_ttl in
            ground
              (arith, remaining-pos 1_000_000_000 (t + 1_000_000_000 * n) t' (omega arith) fits))))
