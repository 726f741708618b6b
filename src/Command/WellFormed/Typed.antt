-- ===== src/Command/WellFormed/Typed.antt =====
-- The look-ups of the command files, `GetList`, `GetOrCreateList` and the like, in a well-formed
-- keyspace.
use redis_like.Base.{
  Bool, true, false, if◌then◌else◌, ◌≡◌, refl, Option, none, some, List, Bytes, arith, inl, inr,
  Option-cases, ℤ, Map, find, IsDistinct,
}
use redis_like.Object.{Value, string, hash, list, set, zset, RedisObject, as_list, as_hash, as_set}
use redis_like.Dict
use redis_like.Dict.{Dict}
use redis_like.Command.Context.{check_expire, typed, get_typed, or_created, get_or_create}
use redis_like.Command.WellFormed.{
  IsWellValue, IsWellBut, IsWell, IsWell-but, set-IsWellBut, check_expire-IsWell,
}

-- what a look-up gives: the container and the keyspace
pub record Opened {A : Type 0} (R : A → Type 0) (key : Bytes) (r : Option A × Dict) : Type 0 where
  pub missing : r.0 ≡ none → IsWell r.1
  pub others : IsWellBut key r.1
  pub obtained : (x : A) → r.0 ≡ some x → R x

module _ {A : Type 0} (as_type : Value → Option A) (R : A → Type 0)
    (holds : (v : Value) (x : A) → IsWellValue v → as_type v ≡ some x → R x) where
  typed-holds :
      (db : Dict) (key : Bytes) (x : A) → IsWell db → typed as_type (Dict.get db key) ≡ some x → R x
  unfolding Dict.get
  typed-holds db key x w e = elim (Option-cases (find key db)) [
    | inl n ↦ absurd (ground (arith, n))
    | inr (obj, n) ↦ holds obj.value x (w.objects key obj n) (rw n at e)
  ]

  pub get_typed-Opened :
      (db : Dict) (key : Bytes) (now : ℤ)
      → IsWell db
      → Opened R key (get_typed as_type db key now) × IsWell (get_typed as_type db key now).1
  unfolding get_typed
  get_typed-Opened db key now w =
      let w' = check_expire-IsWell db key now w in
      (
        record {
          missing = λ e. w';
          others = IsWell-but key (check_expire db key now) w';
          obtained = λ x e. typed-holds (check_expire db key now) key x w' e;
        },
        w',
      )

  or_created-Opened :
      (created : RedisObject) (fresh : A) (db : Dict) (key : Bytes) (o : Option RedisObject)
      → R fresh
      → IsWell db
      → Dict.get db key ≡ o
      → Opened R key (or_created as_type created fresh db key o)
  unfolding Dict.get
  or_created-Opened created fresh db key none r w e = record {
    missing = λ n. absurd (ground arith);
    others = set-IsWellBut db key created (IsWell-but key db w);
    obtained = λ x n. let own : fresh ≡ x = ground arith in rw own at r;
  }
  or_created-Opened created fresh db key (some obj) r w e = record {
    missing = λ n. w;
    others = IsWell-but key db w;
    obtained = λ x n. holds obj.value x (w.objects key obj e) n;
  }

  pub get_or_create-Opened :
      (created : RedisObject) (fresh : A) (db : Dict) (key : Bytes) (now : ℤ)
      → R fresh
      → IsWell db
      → Opened R key (get_or_create as_type created fresh db key now)
  unfolding get_or_create
  get_or_create-Opened created fresh db key now r w =
      let db₁ = check_expire db key now in
      or_created-Opened created fresh db₁ key (Dict.get db₁ key) r
        (check_expire-IsWell db key now w) refl

-- a handler that replies at once where nothing was found
pub elim-IsWell :
    {A : Type 0} (R : A → Type 0) (key : Bytes) (o : Option A) (db : Dict) (missing : Bytes)
    (f : A → Bytes × Dict)
    → Opened R key (o, db)
    → ((x : A) → R x → IsWell (f x).1)
    → IsWell (elim o as (λ _. Bytes × Dict) [ none ↦ (missing, db) | some x ↦ f x ]).1
elim-IsWell R key none db missing f op h = op.missing refl
elim-IsWell R key (some x) db missing f op h = h x (op.obtained x refl)

pub list-holds : (v : Value) (l : List Bytes) → IsWellValue v → as_list v ≡ some l → Unit {0}
list-holds v l w e = tt

pub hash-holds : (v : Value) (h : Map Bytes) → IsWellValue v → as_hash v ≡ some h → IsDistinct h
hash-holds (hash g) h w e = let own : g ≡ h = ground arith in rw own at (w.1)
hash-holds (string s) h w e = absurd (ground arith)
hash-holds (list l) h w e = absurd (ground arith)
hash-holds (set s) h w e = absurd (ground arith)
hash-holds (zset z) h w e = absurd (ground arith)

pub set-holds : (v : Value) (s : Map (Unit {0})) → IsWellValue v → as_set v ≡ some s → IsDistinct s
set-holds (set g) s w e = let own : g ≡ s = ground arith in rw own at (w.1)
set-holds (string t) s w e = absurd (ground arith)
set-holds (list l) s w e = absurd (ground arith)
set-holds (hash h) s w e = absurd (ground arith)
set-holds (zset z) s w e = absurd (ground arith)

-- two results, of which a test takes one
pub if-IsWell {ℓ} :
    {A : Type ℓ} (b : Bool) (x y : A × Dict)
    → IsWell x.1
    → IsWell y.1
    → IsWell (if b then x else y).1
if-IsWell true x y h k = h
if-IsWell false x y h k = k

-- a number behind the key, or an error
pub number-IsWell :
    (o : Option ℤ) (error : Bytes) (f : ℤ → Bytes × Dict) (db : Dict)
    → IsWell db
    → ((n : ℤ) → IsWell (f n).1)
    → IsWell (elim o as (λ _. Bytes × Dict) [ none ↦ (error, db) | some n ↦ f n ]).1
number-IsWell none error f db w h = w
number-IsWell (some n) error f db w h = h n
