-- ===== src/Expire.antt =====
-- src/expire.h and src/expire.cpp: lazy deletion, the expiry times and the remaining times.
pub mod View
pub mod Times
pub mod Periodic
use redis_like.Base.{
  ℕ, Bool, true, false, Option, none, some, Bytes, ℤ, pos, negsuc, ◌+ℤ◌, ◌-ℤ◌, scale, quot, wrap,
  ltb_ℤ, if◌then◌else◌,
}
use redis_like.Object.{RedisObject, is_expired}
use redis_like.Dict
use redis_like.Dict.{Dict}

-- `LazyCheck`: whether the key was deleted, and the dictionary after it
unfoldable pub lazy_check : Dict → Bytes → ℤ → Bool × Dict
unfolding Dict.get Dict.del is_expired
lazy_check db key now = elim (Dict.get db key) [
  | none ↦ (false, db)
  | some obj ↦ if is_expired obj now then (true, (Dict.del db key).1) else (false, db)
]

-- `now + std::chrono::milliseconds(ms)` and `now + std::chrono::seconds(s)` on nanoseconds
unfoldable pub after_ms : ℤ → ℤ → ℤ
after_ms now ms = wrap (now +ℤ wrap (scale 1_000_000 ms))

unfoldable pub after_seconds : ℤ → ℤ → ℤ
after_seconds now s = wrap (now +ℤ wrap (scale 1_000_000_000 s))

unfoldable pub set_expire : RedisObject → ℤ → RedisObject
set_expire obj t = record obj { expire_at = some t }

unfoldable pub remove_expire : RedisObject → RedisObject
remove_expire obj = record obj { expire_at = none }

-- what is left until `t`, in units of `unit` nanoseconds; -2 once it is negative
unfoldable pub remaining : ℕ → ℤ → ℤ → ℤ
remaining unit t now =
    let left = quot (wrap (t -ℤ now)) unit in if ltb_ℤ left (pos 0) then negsuc 1 else left

unfoldable pub get_ttl : Option RedisObject → ℤ → ℤ
get_ttl none now = negsuc 1
get_ttl (some obj) now = elim obj.expire_at [
  | none ↦ negsuc 0
  | some t ↦ remaining 1_000_000_000 t now
]
