-- ===== src/Rdb/Saved.antt =====
-- A whole file: what `Save` has written of a keyspace, `Load` puts into an empty one.
use redis_like.Base.{
  ℕ, zero, suc, ◌%◌, ◌≤◌, ◌≡◌, refl, sym, ◌∙◌, ap, Bool, true, false, Option, none, some, [], ◌∷◌,
  ◌++◌, append_assoc, append-nil, ◌==◌, if◌then◌else◌, Bytes, same, same_refl, length,
  length-append, All, arith, ℤ, put, has, IsDistinct,
}
use redis_like.Ds.SkipList.{Rolls}
use redis_like.Object.{type_of, RedisObject}
use redis_like.Dict.{Dict}
use redis_like.Dict
use redis_like.Rdb.Words.{Stream, bytes_of, write_u8, write_u32, write_string, read_u8, read_u32}
use redis_like.Rdb.Reads.{at, read_lem, read_number-bytes_of, read_string-write_string}
use redis_like.Rdb.RoundTrip.{
  IsShort, Fits, FitsTime, restored, cut_ms, put_next, load_object-write_value,
  read_expire-write_expire, type_byte_lt,
}
use redis_like.Rdb.{
  rdb_magic, rdb_version, rdb_select_db, rdb_eof, type_byte, write_expire, write_value, save_object,
  save_entries, footer, save, read_expire, load_object, load_entry, at_eof, load_entries, load,
}

-- A key can be told from the end of the file by the lowest byte of its length, and what it holds fits.
abbrev pub FitsEntry : Bytes × RedisObject → Type 0
FitsEntry (key, obj) =
    IsShort key × ((length key % 256 == rdb_eof) ≡ false) × FitsTime obj.expire_at × Fits obj.value

-- an object as it comes back
unfoldable pub restored_object : (ℕ → Rolls) → RedisObject → RedisObject
restored_object rolls obj = record {
  value = restored rolls obj.value;
  expire_at = cut_ms obj.expire_at;
}

-- the keyspace as it comes back
unfoldable pub restored_all : (ℕ → ℕ → Rolls) → ℕ → Dict → Dict
restored_all rolls i [] = []
restored_all rolls i ((key, obj) ∷ db) =
    (key, restored_object (rolls i) obj) ∷ restored_all rolls (suc i) db

has-restored_all :
    (rolls : ℕ → ℕ → Rolls) (k : Bytes) (i : ℕ) (db : Dict)
    → has k (restored_all rolls i db) ≡ has k db
unfolding restored_all has
has-restored_all rolls k i [] = refl
has-restored_all rolls k i ((key, obj) ∷ db) =
    ap (λ b. if same key k then true else b) (has-restored_all rolls k (suc i) db)

IsDistinct-restored_all :
    (rolls : ℕ → ℕ → Rolls) (i : ℕ) (db : Dict)
    → IsDistinct db
    → IsDistinct (restored_all rolls i db)
unfolding restored_all
IsDistinct-restored_all rolls i [] d = tt
IsDistinct-restored_all rolls i ((key, obj) ∷ db) d =
    (has-restored_all rolls key (suc i) db ∙ d.0, IsDistinct-restored_all rolls (suc i) db d.1)

-- a saved object in front of the rest of a file
save_object-append :
    (obj : RedisObject) (t : Bytes)
    → save_object obj ++ t
      ≡ write_expire obj.expire_at
        ++ (write_u8 (type_byte (type_of obj.value)) ++ (write_value obj.value ++ t))
unfolding save_object
save_object-append obj t =
    let e = write_expire obj.expire_at in
    let ty = write_u8 (type_byte (type_of obj.value)) in
    append_assoc e (ty ++ write_value obj.value) t
    ∙ ap (λ u. e ++ u) (append_assoc ty (write_value obj.value) t)

-- the rest of a round, from its last reading to its first
abbrev store_loaded : Dict → Bytes → Option ℤ → Option RedisObject × Stream → Dict × Stream
store_loaded db key e q =
    (elim q.0 [ none ↦ db | some o ↦ Dict.set db key (record o { expire_at = e }) ], q.1)

abbrev load_typed : (ℕ → Rolls) → Dict → Bytes → Option ℤ → ℕ × Stream → Dict × Stream
load_typed rolls db key e q = store_loaded db key e (load_object rolls q.0 q.1)

abbrev load_timed : (ℕ → Rolls) → Dict → Bytes → Option ℤ × Stream → Dict × Stream
load_timed rolls db key q = load_typed rolls db key q.0 (read_u8 q.1)

load_entry-save_object :
    (rolls : ℕ → Rolls) (key : Bytes) (obj : RedisObject) (db : Dict) (t : Bytes)
    → FitsEntry (key, obj)
    → load_entry rolls db (at (write_string key ++ (save_object obj ++ t)))
      ≡ (Dict.set db key (restored_object rolls obj), at t)
unfolding load_entry restored_object
load_entry-save_object rolls key obj db t fits =
    let ty = type_byte (type_of obj.value) in
    let lt = type_byte_lt obj.value in
    let rest = write_value obj.value ++ t in
    let e = obj.expire_at in
    ap (λ p. load_timed rolls db p.0 (read_expire p.1))
      (read_string-write_string key (save_object obj ++ t) fits.0)
    ∙ ap (λ u. load_timed rolls db key (read_expire (at u))) (save_object-append obj t)
    ∙ ap (load_timed rolls db key) (read_expire-write_expire e ty rest lt fits.2)
    ∙ ap (load_typed rolls db key (cut_ms e)) (read_number-bytes_of 1 ty rest (omega (arith, lt)))
    ∙ ap (store_loaded db key (cut_ms e)) (load_object-write_value rolls obj.value t fits.3)

-- a key does not begin like the end of the file
at_eof-write_string :
    (key t : Bytes)
    → (length key % 256 == rdb_eof) ≡ false
    → at_eof (at (write_string key ++ t)) ≡ false
unfolding at_eof write_string bytes_of
at_eof-write_string key t h = h

at_eof-footer : at_eof (at footer) ≡ true
unfolding at_eof bytes_of
at_eof-footer = refl

module _ (rolls : ℕ → ℕ → Rolls) where
  pub next_round :
      (fuel i : ℕ) (db : Dict) (is : Stream)
      → at_eof is ≡ false
      → load_entries (suc fuel) rolls i db is
        ≡ load_entries fuel rolls
            (suc i)
            (load_entry (rolls i) db is).0
            (load_entry (rolls i) db is).1
  unfolding load_entries
  next_round fuel i db is h = rw h refl

  pub no_round :
      (fuel i : ℕ) (db : Dict) (is : Stream)
      → at_eof is ≡ true
      → load_entries fuel rolls i db is ≡ db
  unfolding load_entries
  no_round zero i db is h = refl
  no_round (suc fuel) i db is h = rw h refl

  load_entries-save_entries :
      (es db : Dict) (i fuel : ℕ)
      → length es ≤ fuel
      → All FitsEntry es
      → IsDistinct (db ++ restored_all rolls i es)
      → load_entries fuel rolls i db (at (save_entries es ++ footer))
        ≡ db ++ restored_all rolls i es
  unfolding save_entries restored_all
  load_entries-save_entries [] db i fuel le fits d =
      no_round fuel i db (at footer) at_eof-footer ∙ sym (append-nil db)
  load_entries-save_entries ((key, obj) ∷ es) db i zero le fits d = absurd (omega (arith, le))
  load_entries-save_entries ((key, obj) ∷ es) db i (suc fuel) le fits d =
      let rest = save_entries es ++ footer in
      let file = write_string key ++ (save_object obj ++ rest) in
      let back = restored_object (rolls i) obj in
      let next = put_next key back db (restored_all rolls (suc i) es) d in
      let read = load_entry-save_object (rolls i) key obj db rest fits.0 in
      ap (λ u. load_entries (suc fuel) rolls i db (at u))
        (append_assoc (write_string key) (save_object obj ++ save_entries es) footer
          ∙ ap (λ u. write_string key ++ u)
              (append_assoc (save_object obj) (save_entries es) footer))
      ∙ next_round fuel i db (at file) (at_eof-write_string key (save_object obj ++ rest) fits.0.1)
      ∙ ap (λ p. load_entries fuel rolls (suc i) p.0 p.1) read
      ∙ ap (λ a. load_entries fuel rolls (suc i) a (at rest)) (set_next db key back ∙ next.0)
      ∙ load_entries-save_entries es (db ++ (key, back) ∷ []) (suc i) fuel (omega (arith, le))
          fits.1 next.1
      ∙ append_assoc db ((key, back) ∷ []) (restored_all rolls (suc i) es)
    where
      set_next : (db : Dict) (key : Bytes) (o : RedisObject) → Dict.set db key o ≡ put key o db
      set_next db key o = unfold Dict.set in refl

-- An entry takes a byte at least, so the length of the file bounds the rounds.
length-save_entries : (es : Dict) → length es ≤ length (save_entries es)
unfolding save_entries write_string bytes_of
length-save_entries [] = omega arith
length-save_entries ((key, obj) ∷ es) = omega (
  arith,
  length-save_entries es,
  length-append (save_object obj) (save_entries es),
  length-append key (save_object obj ++ save_entries es),
)

length-save : (db : Dict) → length db ≤ length (save db)
unfolding save bytes_of
length-save db = omega (arith, length-save_entries db, length-append (save_entries db) footer)

-- the header of the file, from its last reading to its first
abbrev load_behind : (ℕ → ℕ → Rolls) → Dict → ℕ → Bytes → Stream → Bool × Dict
load_behind rolls db bytes magic is =
    if same magic rdb_magic then (true, load_entries bytes rolls 0 db is) else (false, db)

abbrev load_marked : (ℕ → ℕ → Rolls) → Dict → ℕ → Bytes → Stream → ℕ × Stream → Bool × Dict
load_marked rolls db bytes magic is q =
    load_behind rolls db bytes magic
      (if q.0 == rdb_select_db then (read_u32 q.1).1 else if q.1.good then is else q.1)

abbrev load_versioned : (ℕ → ℕ → Rolls) → Dict → ℕ → Bytes → Stream → Bool × Dict
load_versioned rolls db bytes magic is = load_marked rolls db bytes magic is (read_u8 is)

abbrev load_magic : (ℕ → ℕ → Rolls) → Dict → ℕ → Bytes × Stream → Bool × Dict
load_magic rolls db bytes p = load_versioned rolls db bytes p.0 (read_u8 p.1).1

-- `Load` into an empty keyspace, of what `Save` has written of a keyspace in which no key stands twice
-- and each entry fits the file, is true, and gives the same keys with the same values and times, but
-- that a time is cut to milliseconds, and the members of a sorted set are inserted in their order.
pub load-save :
    (rolls : ℕ → ℕ → Rolls) (db : Dict)
    → IsDistinct db
    → All FitsEntry db
    → load rolls (save db) [] ≡ (true, restored_all rolls 0 db)
unfolding save load
load-save rolls db d fits =
    let body = save_entries db ++ footer in
    let marked = write_u8 rdb_select_db ++ (write_u32 0 ++ body) in
    let bytes = length (save db) in
    ap (load_magic rolls [] bytes) (read_lem rdb_magic (write_u8 rdb_version ++ marked))
    ∙ ap (λ q. load_versioned rolls [] bytes rdb_magic q.1)
        (read_number-bytes_of 1 rdb_version marked (omega arith))
    ∙ ap (load_marked rolls [] bytes rdb_magic (at marked))
        (read_number-bytes_of 1 rdb_select_db (write_u32 0 ++ body) (omega arith))
    ∙ ap (λ q. load_behind rolls [] bytes rdb_magic q.1)
        (read_number-bytes_of 4 0 body (omega arith))
    ∙ ap (λ b. if b then (true, load_entries bytes rolls 0 [] (at body)) else (false, []))
        (same_refl rdb_magic)
    ∙ ap (λ m. (true, m))
        (load_entries-save_entries rolls db [] 0 bytes (length-save db) fits
          (IsDistinct-restored_all rolls 0 db d))
