-- ===== src/Expire/Periodic.antt =====
-- `PeriodicCheck` of src/expire.cpp, and its caller `PeriodicExpireCheck` of src/server.cpp. What the
-- random generator draws is an argument: `draw k` is what it gives at its k-th call, before the
-- distribution takes it into the range of the keys left.
pub mod Laws
pub mod Kept
use redis_like.Base.{
  ℕ, zero, suc, ◌+◌, ◌-◌, ◌*◌, ◌%◌, Bool, true, false, ◌&&◌, ◌||◌, ◌==◌, leb, ltb, Option, none,
  some, List, [], ◌∷◌, Bytes, ℤ, pos, ◌-ℤ◌, ltb_ℤ, wrap, if◌then◌else◌, length, is_empty, get_elem?,
  take,
}
use redis_like.Object.{is_expired}
use redis_like.Dict
use redis_like.Dict.{Dict}

abbrev pub Draws : Type 0
Draws = ℕ → ℕ

-- `keys[i] = key`
unfoldable pub replace : ℕ → Bytes → List Bytes → List Bytes
replace i key [] = []
replace zero key (k ∷ keys) = key ∷ keys
replace (suc i) key (k ∷ keys) = k ∷ replace i key keys

-- `std::swap(keys[idx], keys[remaining - 1]); --remaining;` on the first `remaining` keys
unfoldable pub take_out : ℕ → List Bytes → List Bytes
unfolding replace
take_out idx keys =
    let last = length keys - 1 in
    elim (get_elem? keys last) [ none ↦ keys | some key ↦ take last (replace idx key keys) ]

-- a drawn key: whether it was deleted, and the keyspace after it
unfoldable pub check_key : ℤ → Dict → Bytes → Bool × Dict
check_key now db key = elim (Dict.get db key) [
  | none ↦ (false, db)
  | some obj ↦ if is_expired obj now then (true, (Dict.del db key).1) else (false, db)
]

-- what one round of the outer loop leaves
pub record Sampled : Type 0 where
  pub checked : ℕ
  pub deleted : ℕ
  pub keys : List Bytes
  pub db : Dict

abbrev pub count_if : Bool → ℕ → ℕ
count_if true n = suc n
count_if false n = n

-- The inner loop, with the rounds that `sampleSize` leaves, from the k-th draw on.
unfoldable pub sample : Draws → ℕ → ℤ → ℕ → List Bytes → Dict → Sampled
sample draw k now zero keys db = record { checked = 0; deleted = 0; keys = keys; db = db }
sample draw k now (suc n) keys db = elim (get_elem? keys (draw k % length keys)) [
  | none ↦ record { checked = 0; deleted = 0; keys = keys; db = db }
  | some key ↦
      (let (expired, db₁) = check_key now db key in
        let rest = sample draw (suc k) now n (take_out (draw k % length keys) keys) db₁ in
        record rest { checked = suc rest.checked; deleted = count_if expired rest.deleted })
]

-- The outer loop, with the rounds that are left of 16: the number of deleted keys, and the keyspace.
unfoldable pub check_rounds : ℕ → Draws → ℕ → ℤ → ℕ → List Bytes → Dict → ℕ × Dict
check_rounds zero draw k now sample_size keys db = (0, db)
check_rounds (suc n) draw k now sample_size keys db =
    let s = sample draw k now sample_size keys db in
    let (more, db') = check_rounds n draw (k + s.checked) now sample_size s.keys s.db in
    if s.deleted == 0 || ltb 0 sample_size && leb (s.deleted * 4) s.checked
    then (s.deleted, s.db)
    else if is_empty s.keys
    then (s.deleted, s.db)
    else (s.deleted + more, db')

-- `PeriodicCheck`, for a `sampleSize` that is not negative
unfoldable pub periodic_check : Draws → ℤ → ℕ → Dict → ℕ × Dict
periodic_check draw now sample_size db =
    if is_empty (Dict.keys db)
    then (0, db)
    else check_rounds 16 draw 0 now sample_size (Dict.keys db) db

-- `PeriodicExpireCheck`: the time of the last check, and the keyspace
unfoldable pub periodic_expire_check : Draws → ℤ → ℤ → Dict → ℤ × Dict
periodic_expire_check draw now last_expire_check db =
    if ltb_ℤ (wrap (now -ℤ last_expire_check)) (pos 100_000_000)
    then (last_expire_check, db)
    else (now, (periodic_check draw now 20 db).1)
