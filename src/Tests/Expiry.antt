-- ===== src/Tests/Expiry.antt =====
-- An instance of the theorem on the periodic check.
use redis_like.Base.{ℕ, ◌*◌, refl, some, none, [], ◌∷◌, codes, same, pos, has, IsDistinct}
use redis_like.Object.{RedisObject, string}
use redis_like.Dict.{Dict}
use redis_like.Expire.Periodic.{Draws, periodic_check}
use redis_like.Expire.Periodic.Laws.{IsPurged, periodic_check-IsPurged}

abbrev until : ℕ → RedisObject
until t = record { value = string (codes "v"); expire_at = some (pos t) }

abbrev mixed : Dict
mixed =
    (codes "a", until 10)
    ∷ (codes "b", until 90)
    ∷ (codes "c", until 20)
    ∷ (codes "d", record { value = string []; expire_at = none })
    ∷ []

mixed-IsDistinct : IsDistinct mixed
unfolding has same
mixed-IsDistinct = (refl, (refl, (refl, (refl, tt))))

abbrev threes : Draws
threes k = 3 * k

periodic_check-IsPurged_example :
    IsPurged
      (pos 50)
      (periodic_check threes (pos 50) 2 mixed).0
      mixed
      (periodic_check threes (pos 50) 2 mixed).1
periodic_check-IsPurged_example = periodic_check-IsPurged threes (pos 50) 2 mixed mixed-IsDistinct
