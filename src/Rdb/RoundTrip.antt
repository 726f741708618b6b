-- ===== src/Rdb/RoundTrip.antt =====
-- `Load` of what `Save` has written.
use mathlib.Core.Path.{subst}
use redis_like.Base.{
  ℕ, suc, ◌^◌, ◌<◌, ◌≡◌, refl, sym, ◌∙◌, ap, false, Option, none, some, List, [], ◌∷◌, ◌++◌,
  append_assoc, append-nil, ◌==◌, if◌then◌else◌, Bytes, length, All, ℤ, pos, negsuc, IsI64, quot,
  scale, wrap, arith, Map, put, IsDistinct, put-fresh, IsDistinct-fresh,
}
use redis_like.Ds.SkipList
use redis_like.Ds.SkipList.{SkipList, Rolls}
use redis_like.Object.{Value, string, hash, list, set, zset, type_of, RedisObject}
use redis_like.Rdb.Words.{
  bytes_of, write_u8, write_string, write_i64, read_u8, read_u32, read_i64, read_double,
  read_string,
}
use redis_like.Rdb.Reads.{at, read_number-bytes_of, read_string-write_string, read_i64-write_i64}
use redis_like.Rdb.{
  rdb_expire_ms, type_byte, write_expire, write_pairs, write_strings, write_members, ranked,
  write_scored, write_value, read_expire, read_pairs, read_strings, read_members, read_scored,
  load_object,
}

abbrev pub IsShort : Bytes → Type 0
IsShort s = length s < 2 ^ 32

-- `put` of the first entry of a map whose keys are distinct, behind the entries before it
pub put_next :
    {V : Type 0} (k : Bytes) (v : V) (m n : Map V)
    → IsDistinct (m ++ (k, v) ∷ n)
    → (put k v m ≡ m ++ (k, v) ∷ []) × IsDistinct ((m ++ (k, v) ∷ []) ++ n)
put_next k v m n d = (
  put-fresh k v m (IsDistinct-fresh k v m n d),
  subst IsDistinct (sym (append_assoc m ((k, v) ∷ []) n)) d,
)

read_pairs-write_pairs :
    (h acc : Map Bytes) (t : Bytes)
    → All (λ p. IsShort p.0 × IsShort p.1) h
    → IsDistinct (acc ++ h)
    → read_pairs (length h) acc (at (write_pairs h ++ t)) ≡ (acc ++ h, at t)
unfolding read_pairs write_pairs
read_pairs-write_pairs [] acc t short d = ap (λ a. (a, at t)) (sym (append-nil acc))
read_pairs-write_pairs ((f, v) ∷ h) acc t short d =
    let next = put_next f v acc h d in
    ap (λ u. read_pairs (suc (length h)) acc (at u))
      (append_assoc (write_string f) (write_string v ++ write_pairs h) t
        ∙ ap (λ u. write_string f ++ u) (append_assoc (write_string v) (write_pairs h) t))
    ∙ ap (λ p. let (val, is) = read_string p.1 in read_pairs (length h) (put p.0 val acc) is)
        (read_string-write_string f (write_string v ++ (write_pairs h ++ t)) short.0.0)
    ∙ ap (λ p. read_pairs (length h) (put f p.0 acc) p.1)
        (read_string-write_string v (write_pairs h ++ t) short.0.1)
    ∙ ap (λ a. read_pairs (length h) a (at (write_pairs h ++ t))) next.0
    ∙ read_pairs-write_pairs h (acc ++ (f, v) ∷ []) t short.1 next.1
    ∙ ap (λ a. (a, at t)) (append_assoc acc ((f, v) ∷ []) h)

read_strings-write_strings :
    (l acc : List Bytes) (t : Bytes)
    → All IsShort l
    → read_strings (length l) acc (at (write_strings l ++ t)) ≡ (acc ++ l, at t)
unfolding read_strings write_strings
read_strings-write_strings [] acc t short = ap (λ a. (a, at t)) (sym (append-nil acc))
read_strings-write_strings (s ∷ l) acc t short =
    ap (λ u. read_strings (suc (length l)) acc (at u))
      (append_assoc (write_string s) (write_strings l) t)
    ∙ ap (λ p. read_strings (length l) (acc ++ p.0 ∷ []) p.1)
        (read_string-write_string s (write_strings l ++ t) short.0)
    ∙ read_strings-write_strings l (acc ++ s ∷ []) t short.1
    ∙ ap (λ a. (a, at t)) (append_assoc acc (s ∷ []) l)

read_members-write_members :
    (s acc : Map (Unit {0})) (t : Bytes)
    → All (λ p. IsShort p.0) s
    → IsDistinct (acc ++ s)
    → read_members (length s) acc (at (write_members s ++ t)) ≡ (acc ++ s, at t)
unfolding read_members write_members
read_members-write_members [] acc t short d = ap (λ a. (a, at t)) (sym (append-nil acc))
read_members-write_members ((m, u) ∷ s) acc t short d =
    let next = put_next m u acc s d in
    ap (λ u. read_members (suc (length s)) acc (at u))
      (append_assoc (write_string m) (write_members s) t)
    ∙ ap (λ p. read_members (length s) (put p.0 tt acc) p.1)
        (read_string-write_string m (write_members s ++ t) short.0)
    ∙ ap (λ a. read_members (length s) a (at (write_members s ++ t))) next.0
    ∙ read_members-write_members s (acc ++ (m, u) ∷ []) t short.1 next.1
    ∙ ap (λ a. (a, at t)) (append_assoc acc ((m, u) ∷ []) s)

-- The lengths of the value and of its texts fit the 32 bits that the file has for them, a score is a
-- pattern of 64 bits, and no key stands twice.
abbrev pub Fits : Value → Type 0
Fits (string s) = IsShort s
Fits (hash h) = (length h < 2 ^ 32) × All (λ p. IsShort p.0 × IsShort p.1) h × IsDistinct h
Fits (list l) = (length l < 2 ^ 32) × All IsShort l
Fits (set s) = (length s < 2 ^ 32) × All (λ p. IsShort p.0) s × IsDistinct s
Fits (zset z) = (length (ranked z) < 2 ^ 32) × All (λ p. IsShort p.0 × (p.1 < 2 ^ 64)) (ranked z)

module _ (rolls : ℕ → Rolls) where
  -- the skip list with the members inserted one after the other
  unfoldable pub rebuilt : ℕ → SkipList → List (Bytes × ℕ) → SkipList
  rebuilt k sl [] = sl
  rebuilt k sl ((m, score) ∷ l) = rebuilt (suc k) (SkipList.insert (rolls k) score m sl).1 l

  read_scored-write_scored :
      (l : List (Bytes × ℕ)) (k : ℕ) (sl : SkipList) (t : Bytes)
      → All (λ p. IsShort p.0 × (p.1 < 2 ^ 64)) l
      → read_scored rolls k (length l) sl (at (write_scored l ++ t)) ≡ (rebuilt k sl l, at t)
  unfolding read_scored write_scored rebuilt
  read_scored-write_scored [] k sl t short = refl
  read_scored-write_scored ((m, score) ∷ l) k sl t short =
      let rest = write_scored l ++ t in
      ap (λ u. read_scored rolls k (suc (length l)) sl (at u))
        (append_assoc (write_string m) (bytes_of 8 score ++ write_scored l) t
          ∙ ap (λ u. write_string m ++ u) (append_assoc (bytes_of 8 score) (write_scored l) t))
      ∙ ap
          (λ p.
            let (s, is) = read_double p.1 in
            read_scored rolls (suc k) (length l) (SkipList.insert (rolls k) s p.0 sl).1 is)
          (read_string-write_string m (bytes_of 8 score ++ rest) short.0.0)
      ∙ ap (λ p. read_scored rolls (suc k) (length l) (SkipList.insert (rolls k) p.0 m sl).1 p.1)
          (read_number-bytes_of 8 score rest (omega (arith, short.0.1)))
      ∙ read_scored-write_scored l (suc k) (SkipList.insert (rolls k) score m sl).1 t short.1

  -- the value as it comes back: the members of a sorted set are inserted in their order
  unfoldable pub restored : Value → Value
  unfolding rebuilt
  restored (string s) = string s
  restored (hash h) = hash h
  restored (list l) = list l
  restored (set s) = set s
  restored (zset z) = zset (rebuilt 0 SkipList.empty (ranked z))

  abbrev pub with_value : Value → Option RedisObject
  with_value v = some (record { value = v; expire_at = none })

  count_back :
      (n : ℕ) (s t : Bytes)
      → n < 2 ^ 32
      → read_u32 (at ((bytes_of 4 n ++ s) ++ t)) ≡ (n, at (s ++ t))
  count_back n s t h =
      ap (λ u. read_u32 (at u)) (append_assoc (bytes_of 4 n) s t)
      ∙ read_number-bytes_of 4 n (s ++ t) (omega (arith, h))

  pub load_object-write_value :
      (v : Value) (t : Bytes)
      → Fits v
      → load_object rolls (type_byte (type_of v)) (at (write_value v ++ t))
        ≡ (with_value (restored v), at t)
  unfolding load_object type_byte type_of write_value restored
  load_object-write_value (string s) t fits =
      ap (λ p. (with_value (string p.0), p.1)) (read_string-write_string s t fits)
  load_object-write_value (hash h) t fits =
      ap (λ c. let (r, is) = read_pairs c.0 [] c.1 in (with_value (hash r), is))
        (count_back (length h) (write_pairs h) t fits.0)
      ∙ ap (λ p. (with_value (hash p.0), p.1)) (read_pairs-write_pairs h [] t fits.1 fits.2)
  load_object-write_value (list l) t fits =
      ap (λ c. let (r, is) = read_strings c.0 [] c.1 in (with_value (list r), is))
        (count_back (length l) (write_strings l) t fits.0)
      ∙ ap (λ p. (with_value (list p.0), p.1)) (read_strings-write_strings l [] t fits.1)
  load_object-write_value (set s) t fits =
      ap (λ c. let (r, is) = read_members c.0 [] c.1 in (with_value (set r), is))
        (count_back (length s) (write_members s) t fits.0)
      ∙ ap (λ p. (with_value (set p.0), p.1)) (read_members-write_members s [] t fits.1 fits.2)
  load_object-write_value (zset z) t fits =
      ap
        (λ c. let (r, is) = read_scored rolls 0 c.0 SkipList.empty c.1 in (with_value (zset r), is))
        (count_back (length (ranked z)) (write_scored (ranked z)) t fits.0)
      ∙ ap (λ p. (with_value (zset p.0), p.1))
          (read_scored-write_scored (ranked z) 0 SkipList.empty t fits.1)

-- a time as it comes back: in whole milliseconds
unfoldable pub cut_ms : Option ℤ → Option ℤ
cut_ms none = none
cut_ms (some t) = some (wrap (scale 1_000_000 (quot t 1_000_000)))

abbrev pub FitsTime : Option ℤ → Type 0
FitsTime none = Unit
FitsTime (some t) = IsI64 t

IsI64-quot : (t : ℤ) → IsI64 t → IsI64 (quot t 1_000_000)
unfolding quot
IsI64-quot (pos n) h = (omega (arith, h.0), omega arith)
IsI64-quot (negsuc n) h = (ground arith, ground arith)

pub type_byte_lt : (v : Value) → type_byte (type_of v) < 5
unfolding type_byte type_of
type_byte_lt (string s) = omega arith
type_byte_lt (hash h) = omega arith
type_byte_lt (list l) = omega arith
type_byte_lt (set s) = omega arith
type_byte_lt (zset z) = omega arith

no_marker : (ty : ℕ) → ty < 5 → (ty == rdb_expire_ms) ≡ false
no_marker ty h = ground arith

pub read_expire-write_expire :
    (e : Option ℤ) (ty : ℕ) (u : Bytes)
    → ty < 5
    → FitsTime e
    → read_expire (at (write_expire e ++ (bytes_of 1 ty ++ u)))
      ≡ (cut_ms e, at (bytes_of 1 ty ++ u))
unfolding read_expire write_expire cut_ms
read_expire-write_expire none ty u lt fits =
    let is = at (bytes_of 1 ty ++ u) in
    ap
      (λ q.
        if q.0 == rdb_expire_ms
        then (let (ms, is'') = read_i64 q.1 in (some (wrap (scale 1_000_000 ms)), is''))
        else (none, if q.1.good then is else q.1))
      (read_number-bytes_of 1 ty u (omega (arith, lt)))
    ∙ rw (no_marker ty lt) refl
read_expire-write_expire (some t) ty u lt fits =
    let ms = quot t 1_000_000 in
    let u' = bytes_of 1 ty ++ u in
    let is = at ((write_u8 rdb_expire_ms ++ write_i64 ms) ++ u') in
    ap
      (λ q.
        if q.0 == rdb_expire_ms
        then (let (ms, is'') = read_i64 q.1 in (some (wrap (scale 1_000_000 ms)), is''))
        else (none, if q.1.good then is else q.1))
      (ap (λ s. read_u8 (at s)) (append_assoc (bytes_of 1 rdb_expire_ms) (write_i64 ms) u')
        ∙ read_number-bytes_of 1 rdb_expire_ms (write_i64 ms ++ u') (omega arith))
    ∙ ap (λ p. (some (wrap (scale 1_000_000 p.0)), p.1))
        (read_i64-write_i64 ms u' (IsI64-quot t fits))
