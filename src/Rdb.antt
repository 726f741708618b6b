-- ===== src/Rdb.antt =====
-- src/storage/rdb.h and src/storage/rdb.cpp: what `Save` writes and what `Load` reads. The file is the
-- list of its bytes. What the generators of the skip lists give in `Load` is an argument.
pub mod Words
pub mod Reads
pub mod RoundTrip
pub mod Saved
pub mod Rebuilt
pub mod Loaded
pub mod Rounds
use redis_like.Base.{
  ℕ, zero, suc, ◌*◌, ◌≡◌, refl, Bool, true, false, Option, none, some, List, [], ◌∷◌, ◌++◌, ◌==◌,
  if◌then◌else◌, Bytes, codes, same, length, Map, put, ℤ, pos, ◌-ℤ◌, quot, scale, wrap, take, drop,
  is_empty,
}
use redis_like.Ds.SkipList.Queries.{get_score, range_by_rank}
use redis_like.Ds.SkipList
use redis_like.Ds.SkipList.{SkipList, Rolls}
use redis_like.Object.{
  ObjType, string_type, hash_type, list_type, set_type, zset_type, Value, string, hash, list, set,
  zset, type_of, RedisObject,
}
use redis_like.Dict
use redis_like.Dict.{Dict}
use redis_like.Rdb.Words.{
  Stream, write_u8, write_u32, write_i64, write_double, write_string, read, read_u8, read_u32,
  read_i64, read_double, read_string,
}

abbrev pub rdb_magic : Bytes
rdb_magic = codes "REDIS0001"

abbrev pub rdb_version : ℕ
rdb_version = 1

abbrev pub rdb_eof : ℕ
rdb_eof = 0xff

abbrev pub rdb_expire_ms : ℕ
rdb_expire_ms = 0xfc

abbrev pub rdb_select_db : ℕ
rdb_select_db = 0xfe

-- `static_cast<uint8_t>(ObjType)`
unfoldable pub type_byte : ObjType → ℕ
type_byte string_type = 0
type_byte hash_type = 1
type_byte list_type = 2
type_byte set_type = 3
type_byte zset_type = 4

-- nanoseconds cut to milliseconds
unfoldable pub write_expire : Option ℤ → Bytes
write_expire none = []
write_expire (some t) = write_u8 rdb_expire_ms ++ write_i64 (quot t 1_000_000)

unfoldable pub write_pairs : Map Bytes → Bytes
write_pairs [] = []
write_pairs ((f, v) ∷ h) = write_string f ++ (write_string v ++ write_pairs h)

unfoldable pub write_strings : List Bytes → Bytes
write_strings [] = []
write_strings (s ∷ l) = write_string s ++ write_strings l

unfoldable pub write_members : Map (Unit {0}) → Bytes
write_members [] = []
write_members ((m, _) ∷ s) = write_string m ++ write_members s

-- the members of a skip list in their order, with their scores; each of them has one
unfoldable pub scored : SkipList → List Bytes → List (Bytes × ℕ)
scored sl [] = []
scored sl (m ∷ ms) =
    let rest = scored sl ms in
    elim (get_score m sl) [ none ↦ (m, 0) ∷ rest | some score ↦ (m, score) ∷ rest ]

unfoldable pub ranked : SkipList → List (Bytes × ℕ)
unfolding scored
ranked sl = scored sl (range_by_rank (pos 0) (pos sl.size -ℤ pos 1) sl)

unfoldable pub write_scored : List (Bytes × ℕ) → Bytes
write_scored [] = []
write_scored ((m, score) ∷ l) = write_string m ++ (write_double score ++ write_scored l)

-- the value behind its type byte
unfoldable pub write_value : Value → Bytes
unfolding write_pairs write_strings write_members write_scored ranked
write_value (string s) = write_string s
write_value (hash h) = write_u32 (length h) ++ write_pairs h
write_value (list l) = write_u32 (length l) ++ write_strings l
write_value (set s) = write_u32 (length s) ++ write_members s
write_value (zset z) = write_u32 (length (ranked z)) ++ write_scored (ranked z)

-- `SaveObject`
unfoldable pub save_object : RedisObject → Bytes
unfolding write_expire write_value type_byte
save_object obj =
    write_expire obj.expire_at
    ++ (write_u8 (type_byte (type_of obj.value)) ++ write_value obj.value)

unfoldable pub save_entries : Dict → Bytes
unfolding save_object
save_entries [] = []
save_entries ((key, obj) ∷ db) = write_string key ++ (save_object obj ++ save_entries db)

abbrev pub footer : Bytes
footer = write_u8 rdb_eof ++ write_i64 (pos 0)

-- `Save`
unfoldable pub save : Dict → Bytes
unfolding save_entries
save db =
    rdb_magic
    ++ (write_u8 rdb_version
        ++ (write_u8 rdb_select_db ++ (write_u32 0 ++ (save_entries db ++ footer))))

-- `ReadExpire`: a byte that is no marker is put back, unless its read has failed
unfoldable pub read_expire : Stream → Option ℤ × Stream
read_expire is =
    let (marker, is') = read_u8 is in
    if marker == rdb_expire_ms
    then (let (ms, is'') = read_i64 is' in (some (wrap (scale 1_000_000 ms)), is''))
    else (none, if is'.good then is else is')

unfoldable pub read_pairs : ℕ → Map Bytes → Stream → Map Bytes × Stream
read_pairs zero h is = (h, is)
read_pairs (suc n) h is =
    let (field, is₁) = read_string is in
    let (val, is₂) = read_string is₁ in read_pairs n (put field val h) is₂

unfoldable pub read_strings : ℕ → List Bytes → Stream → List Bytes × Stream
read_strings zero l is = (l, is)
read_strings (suc n) l is = let (s, is') = read_string is in read_strings n (l ++ s ∷ []) is'

unfoldable pub read_members : ℕ → Map (Unit {0}) → Stream → Map (Unit {0}) × Stream
read_members zero s is = (s, is)
read_members (suc n) s is = let (m, is') = read_string is in read_members n (put m tt s) is'

-- with what the generator gives in the k-th `Insert` and on
unfoldable pub read_scored : (ℕ → Rolls) → ℕ → ℕ → SkipList → Stream → SkipList × Stream
read_scored rolls k zero sl is = (sl, is)
read_scored rolls k (suc n) sl is =
    let (m, is₁) = read_string is in
    let (score, is₂) = read_double is₁ in
    read_scored rolls (suc k) n (SkipList.insert (rolls k) score m sl).1 is₂

abbrev with_value : Value → Option RedisObject
with_value v = some (record { value = v; expire_at = none })

-- `LoadObject`
unfoldable pub load_object : (ℕ → Rolls) → ℕ → Stream → Option RedisObject × Stream
load_object rolls type is =
    let (count, is') = read_u32 is in
    if type == 0
    then (let (s, is₁) = read_string is in (with_value (string s), is₁))
    else if type == 1
    then (let (h, is₁) = read_pairs count [] is' in (with_value (hash h), is₁))
    else if type == 2
    then (let (l, is₁) = read_strings count [] is' in (with_value (list l), is₁))
    else if type == 3
    then (let (s, is₁) = read_members count [] is' in (with_value (set s), is₁))
    else if type == 4
    then (let (z, is₁) = read_scored rolls 0 count SkipList.empty is' in (with_value (zset z), is₁))
    else (none, is)

-- a round of the loop of `Load`: one key and its object
unfoldable pub load_entry : (ℕ → Rolls) → Dict → Stream → Dict × Stream
unfolding read_expire load_object
load_entry rolls db is =
    let (key, is₁) = read_string is in
    let (expire_at, is₂) = read_expire is₁ in
    let (type, is₃) = read_u8 is₂ in
    let (loaded, is₄) = load_object rolls type is₃ in
    (
      elim loaded [ none ↦ db | some obj ↦ Dict.set db key (record obj { expire_at = expire_at }) ],
      is₄,
    )

-- what `peek` sees: nothing at the end, or on a stream that has failed
unfoldable pub at_eof : Stream → Bool
at_eof is = if is.good then (elim is.rest [ [] ↦ true | c ∷ _ ↦ c == rdb_eof ]) else true

-- The loop, with a bound on its rounds. `rolls i` is for the i-th object.
unfoldable pub load_entries : ℕ → (ℕ → ℕ → Rolls) → ℕ → Dict → Stream → Dict
unfolding load_entry at_eof
load_entries zero rolls i db is = db
load_entries (suc fuel) rolls i db is =
    let (db', is') = load_entry (rolls i) db is in
    let rest = load_entries fuel rolls (suc i) db' is' in if at_eof is then db else rest

-- `Load` on the file's bytes: whether it was read, and the keyspace. A round takes a byte at least, or
-- fails, so the length of the file bounds the rounds.
unfoldable pub load : (ℕ → ℕ → Rolls) → Bytes → Dict → Bool × Dict
unfolding load_entries
load rolls file db =
    let (magic, is₁) = read 9 (record { rest = file; good = true }) in
    let (version, is₂) = read_u8 is₁ in
    let (marker, is₃) = read_u8 is₂ in
    let is₄ = if marker == rdb_select_db then (read_u32 is₃).1 else if is₃.good then is₂ else is₃ in
    if same magic rdb_magic then (true, load_entries (length file) rolls 0 db is₄) else (false, db)
