-- ===== src/Expire/Times.antt =====
-- The clock arithmetic where nothing overflows `int64_t`.
use redis_like.Base.{
  ℕ, ◌+◌, ◌-◌, ◌*◌, ◌/◌, ◌^◌, ◌≤◌, ◌<◌, ◌≡◌, arith, ltb, if◌then◌else◌, pos, quot, scale-pos,
  +ℤ-pos, -ℤ-pos, wrap-pos, some, none,
}
use redis_like.Object.{Value, is_expired}
use redis_like.Expire.{after_ms, after_seconds, remaining}
use redis_like.Expire.View.{live}

pub after_ms-pos :
    (t ms : ℕ) → t + 1_000_000 * ms < 2 ^ 63 → after_ms (pos t) (pos ms) ≡ pos (t + 1_000_000 * ms)
unfolding after_ms
after_ms-pos t ms h = rw (
  scale-pos 1_000_000 ms,
  wrap-pos (1_000_000 * ms) (omega arith),
  +ℤ-pos t (1_000_000 * ms),
  wrap-pos (t + 1_000_000 * ms) h,
)

pub after_seconds-pos :
    (t s : ℕ)
    → t + 1_000_000_000 * s < 2 ^ 63
    → after_seconds (pos t) (pos s) ≡ pos (t + 1_000_000_000 * s)
unfolding after_seconds
after_seconds-pos t s h = rw (
  scale-pos 1_000_000_000 s,
  wrap-pos (1_000_000_000 * s) (omega arith),
  +ℤ-pos t (1_000_000_000 * s),
  wrap-pos (t + 1_000_000_000 * s) h,
)

-- what is left is rounded down
pub remaining-pos :
    (unit t now : ℕ)
    → now ≤ t
    → t < 2 ^ 63
    → remaining unit (pos t) (pos now) ≡ pos ((t - now) / unit)
unfolding remaining
remaining-pos unit t now h k =
    rw (-ℤ-pos t now h, wrap-pos (t - now) (omega arith)) (unfold quot in ground arith)

-- an object with an expiry time is seen exactly before that time
pub live_until :
    (v : Value) (t now : ℕ)
    → live (pos now) (some (record { value = v; expire_at = some (pos t) }))
      ≡ (if ltb now t then some (record { value = v; expire_at = some (pos t) }) else none)
unfolding is_expired
live_until v t now = ground arith
