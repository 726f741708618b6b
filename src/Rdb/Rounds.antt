-- ===== src/Rdb/Rounds.antt =====
-- The loop of `Load` on every file: a round takes bytes off it, whatever they are.
use redis_like.Base.{
  ℕ, zero, suc, ◌≤◌, ◌<◌, ◌≡◌, ◌∙◌, true, false, List, [], ◌∷◌, Bytes, length, length-drop, arith,
  Map, put, ◌==◌, inl, inr, Bool-cases,
}
use redis_like.Ds.SkipList
use redis_like.Ds.SkipList.{SkipList, Rolls}
use redis_like.Dict.{Dict}
use redis_like.Rdb.Words.{
  Stream, read, read_number, read_u8, read_u32, read_i64, read_double, read_string,
}
use redis_like.Rdb.{
  rdb_eof, rdb_expire_ms, read_expire, read_pairs, read_strings, read_members, read_scored,
  load_object, load_entry, at_eof, load_entries,
}
use redis_like.Rdb.Saved.{next_round, no_round}

-- the bytes that are left
abbrev pub left : Stream → ℕ
left is = length is.rest

left-read : (n : ℕ) (is : Stream) → left (read n is).1 ≤ left is
unfolding read
left-read n is = ground (arith, length-drop n is.rest)

left-read_number : (n : ℕ) (is : Stream) → left (read_number n is).1 ≤ left is
unfolding read_number
left-read_number n is = left-read n is

left-read_i64 : (is : Stream) → left (read_i64 is).1 ≤ left is
unfolding read_i64
left-read_i64 is = left-read_number 8 is

left-read_string : (is : Stream) → left (read_string is).1 ≤ left is
unfolding read_string
left-read_string is =
    let len = read_u32 is in omega (arith, left-read_number 4 is, left-read len.0 len.1)

-- a text takes a byte off a file that has one: its length, or what there is of it
left-read_u32 : (is : Stream) → is.good ≡ true → 0 < left is → left (read_u32 is).1 < left is
unfolding read_number read
left-read_u32 is g h = rw g (ground (arith, h, length-drop 4 is.rest))

left-read_pairs : (n : ℕ) (h : Map Bytes) (is : Stream) → left (read_pairs n h is).1 ≤ left is
unfolding read_pairs
left-read_pairs zero h is = omega arith
left-read_pairs (suc n) h is =
    let (f, is₁) = read_string is in
    let (v, is₂) = read_string is₁ in
    omega (arith, left-read_string is, left-read_string is₁, left-read_pairs n (put f v h) is₂)

left-read_strings : (n : ℕ) (l : List Bytes) (is : Stream) → left (read_strings n l is).1 ≤ left is
unfolding read_strings
left-read_strings zero l is = omega arith
left-read_strings (suc n) l is =
    let (s, is₁) = read_string is in omega (arith, left-read_string is, left-read_strings n _ is₁)

left-read_members :
    (n : ℕ) (s : Map (Unit {0})) (is : Stream) → left (read_members n s is).1 ≤ left is
unfolding read_members
left-read_members zero s is = omega arith
left-read_members (suc n) s is =
    let (m, is₁) = read_string is in
    omega (arith, left-read_string is, left-read_members n (put m tt s) is₁)

left-read_scored :
    (rolls : ℕ → Rolls) (n k : ℕ) (sl : SkipList) (is : Stream)
    → left (read_scored rolls k n sl is).1 ≤ left is
unfolding read_scored
left-read_scored rolls zero k sl is = omega arith
left-read_scored rolls (suc n) k sl is =
    let (m, is₁) = read_string is in
    let (score, is₂) = read_double is₁ in
    let sl' = (SkipList.insert (rolls k) score m sl).1 in
    omega
      (arith, left-read_string is, left-read_number 8 is₁, left-read_scored rolls n (suc k) sl' is₂)

left-read_expire : (is : Stream) → left (read_expire is).1 ≤ left is
unfolding read_expire
left-read_expire is = elim (Bool-cases ((read_u8 is).0 == rdb_expire_ms)) [
  | inl e ↦ rw e (omega (arith, left-read_i64 (read_u8 is).1, left-read_number 1 is))
  | inr e ↦ elim (Bool-cases (read_u8 is).1.good) [
    | inl g ↦ rw (e, g) (omega arith)
    | inr g ↦ rw (e, g) (left-read_number 1 is)
  ]
]

left-load_object :
    (rolls : ℕ → Rolls) (type : ℕ) (is : Stream) → left (load_object rolls type is).1 ≤ left is
unfolding load_object
left-load_object rolls type is =
    let (n, is') = read_u32 is in
    let count = left-read_number 4 is in
    elim (Bool-cases (type == 0)) [
      | inl e ↦ rw e (left-read_string is)
      | inr e₀ ↦ elim (Bool-cases (type == 1)) [
        | inl e ↦ rw (e₀, e) (omega (arith, count, left-read_pairs n [] is'))
        | inr e₁ ↦ elim (Bool-cases (type == 2)) [
          | inl e ↦ rw (e₀, e₁, e) (omega (arith, count, left-read_strings n [] is'))
          | inr e₂ ↦ elim (Bool-cases (type == 3)) [
            | inl e ↦ rw (e₀, e₁, e₂, e) (omega (arith, count, left-read_members n [] is'))
            | inr e₃ ↦ elim (Bool-cases (type == 4)) [
              | inl e ↦
                  rw (e₀, e₁, e₂, e₃, e)
                    (omega (arith, count, left-read_scored rolls n 0 SkipList.empty is'))
              | inr e₄ ↦ rw (e₀, e₁, e₂, e₃, e₄) (omega arith)
            ]
          ]
        ]
      ]
    ]

-- a round begins on a file that has a byte
record CanRead (is : Stream) : Type 0 where
  good : is.good ≡ true
  some_bytes : 0 < left is

at_eof-CanRead : (is : Stream) → at_eof is ≡ false → CanRead is
unfolding at_eof
at_eof-CanRead is h = elim (Bool-cases is.good) [
  | inl e ↦ record { good = e; some_bytes = not_empty is.rest (rw e at h) }
  | inr e ↦ cc (rw e at h)
]
  where
    not_empty : (s : Bytes) → elim s [ [] ↦ true | c ∷ _ ↦ c == rdb_eof ] ≡ false → 0 < length s
    not_empty [] e = cc
    not_empty (c ∷ s) e = omega arith

left-read_key : (is : Stream) → CanRead is → left (read_string is).1 < left is
unfolding read_string
left-read_key is c =
    let len = read_u32 is in
    omega (arith, left-read_u32 is c.good c.some_bytes, left-read len.0 len.1)

left-load_entry :
    (rolls : ℕ → Rolls) (db : Dict) (is : Stream)
    → at_eof is ≡ false
    → left (load_entry rolls db is).1 < left is
unfolding load_entry
left-load_entry rolls db is h =
    let is₁ = (read_string is).1 in
    let is₂ = (read_expire is₁).1 in
    let (type, is₃) = read_u8 is₂ in
    omega (
      arith,
      left-read_key is (at_eof-CanRead is h),
      left-read_expire is₁,
      left-read_number 1 is₂,
      left-load_object rolls type is₃,
    )

-- the keyspace and the file behind `n` rounds of the loop
abbrev pub rounds : (ℕ → ℕ → Rolls) → ℕ → ℕ → Dict → Stream → Dict × Stream
rounds rolls zero i db is = (db, is)
rounds rolls (suc n) i db is =
    let (db', is') = load_entry (rolls i) db is in rounds rolls n (suc i) db' is'

-- the rounds after which the loop has broken off at its test, and what `Load` then gives
pub record Ends (rolls : ℕ → ℕ → Rolls) (i : ℕ) (db : Dict) (is : Stream) : Type 0 where
  count : ℕ
  few : count ≤ left is
  at_end : at_eof (rounds rolls count i db is).1 ≡ true
  before : (m : ℕ) → m < count → at_eof (rounds rolls m i db is).1 ≡ false
  result :
      (fuel : ℕ) → count ≤ fuel → load_entries fuel rolls i db is ≡ (rounds rolls count i db is).0

now-Ends :
    (rolls : ℕ → ℕ → Rolls) (i : ℕ) (db : Dict) (is : Stream)
    → at_eof is ≡ true
    → Ends rolls i db is
now-Ends rolls i db is e = record {
  count = 0;
  few = omega arith;
  at_end = e;
  before = λ m k. absurd (omega (arith, k));
  result = λ fuel k. no_round rolls fuel i db is e;
}

next-Ends :
    (rolls : ℕ → ℕ → Rolls) (i : ℕ) (db : Dict) (is : Stream)
    → at_eof is ≡ false
    → Ends rolls (suc i) (load_entry (rolls i) db is).0 (load_entry (rolls i) db is).1
    → Ends rolls i db is
next-Ends rolls i db is e n = record {
  count = suc n.count;
  few = omega (arith, n.few, left-load_entry (rolls i) db is e);
  at_end = n.at_end;
  before = before;
  result = result;
}
  where
    before : (m : ℕ) → m < suc n.count → at_eof (rounds rolls m i db is).1 ≡ false
    before zero k = e
    before (suc m) k = n.before m (omega (arith, k))

    result :
        (fuel : ℕ)
        → suc n.count ≤ fuel
        → load_entries fuel rolls i db is ≡ (rounds rolls (suc n.count) i db is).0
    result zero k = absurd (omega (arith, k))
    result (suc fuel) k = next_round rolls fuel i db is e ∙ n.result fuel (omega (arith, k))

within_bound :
    (rolls : ℕ → ℕ → Rolls) (bound i : ℕ) (db : Dict) (is : Stream)
    → left is ≤ bound
    → Ends rolls i db is
within_bound rolls zero i db is h = elim (Bool-cases (at_eof is)) [
  | inl e ↦ now-Ends rolls i db is e
  | inr e ↦ let some_left = at_eof-CanRead is e in absurd (omega (arith, some_left.some_bytes, h))
]
within_bound rolls (suc bound) i db is h = elim (Bool-cases (at_eof is)) [
  | inl e ↦ now-Ends rolls i db is e
  | inr e ↦
      let (db', is') = load_entry (rolls i) db is in
      next-Ends rolls i db is e (
        within_bound rolls bound (suc i) db' is'
          (omega (arith, left-load_entry (rolls i) db is e, h)))
]

-- On every file the test of the loop of `Load` is true after some rounds, at most as many as bytes are
-- left, and false before; and with any fuel that is enough for those rounds, what `Load` gives is the
-- keyspace behind them.
pub load_entries-Ends :
    (rolls : ℕ → ℕ → Rolls) (i : ℕ) (db : Dict) (is : Stream) → Ends rolls i db is
load_entries-Ends rolls i db is = within_bound rolls (left is) i db is (omega arith)
