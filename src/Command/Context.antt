-- ===== src/Command/Context.antt =====
-- What the command files share: the context, `CheckExpire`, and the look-up of a value by its type
-- with the pointer into it, `GetList` and the like, for one alternative of the variant at a time.
use redis_like.Base.{ℕ, Option, none, some, List, Bytes, codes, ℤ, pos}
use redis_like.Resp.{error, integer}
use redis_like.Object.{Value, RedisObject}
use redis_like.Dict
use redis_like.Dict.{Dict}
use redis_like.Expire.{lazy_check}

abbrev pub Handler : Type 0
Handler = List Bytes → ℤ → Dict → Bytes × Dict

unfoldable pub check_expire : Dict → Bytes → ℤ → Dict
check_expire db key now = (lazy_check db key now).1

unfoldable pub wrong_type : Bytes
wrong_type = error (codes "WRONGTYPE Operation against a key holding the wrong kind of value")

-- `Integer(static_cast<int64_t>(n))`
abbrev pub integer_ℕ : ℕ → Bytes
integer_ℕ n = integer (pos n)

module _ {A : Type 0} (as_type : Value → Option A) where
  -- the pointer into the object, null for another type
  abbrev pub typed : Option RedisObject → Option A
  typed none = none
  typed (some obj) = as_type obj.value

  -- `none` if the key is missing or holds another type
  unfoldable pub get_typed : Dict → Bytes → ℤ → Option A × Dict
  get_typed db key now = let db₁ = check_expire db key now in (typed (Dict.get db₁ key), db₁)

  -- a missing object is created by the factory, which gives `fresh`; `none` is a wrong type
  abbrev pub or_created : RedisObject → A → Dict → Bytes → Option RedisObject → Option A × Dict
  or_created created fresh db key none = (some fresh, Dict.set db key created)
  or_created created fresh db key (some obj) = (as_type obj.value, db)

  unfoldable pub get_or_create : RedisObject → A → Dict → Bytes → ℤ → Option A × Dict
  get_or_create created fresh db key now =
      let db₁ = check_expire db key now in or_created created fresh db₁ key (Dict.get db₁ key)
