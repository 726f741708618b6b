-- ===== src/Tests/Keyspace.antt =====
-- Instances of the theorems on strings, keys and patterns.
use redis_like.Base.{
  among, ℕ, ◌+◌, ◌-◌, ◌*◌, ◌/◌, ◌≡◌, refl, [], ◌∷◌, some, none, true, false, ◌&&◌, Bool, arith,
  codes, same, ltb, ltb_ℤ, is_some, if◌then◌else◌, pos, negsuc, map, find, has, IsDistinct,
}
use redis_like.Text.{to_string}
use redis_like.Resp.{array, bulk_string, null_bulk_string}
use redis_like.Object.{RedisObject, string, list, is_expired}
use redis_like.Dict
use redis_like.Dict.{Dict}
use redis_like.Expire.View.{live, view}
use redis_like.Command.Context.{integer_ℕ}
use redis_like.Command.Strings.{new_string, set_with, set_cmd, get_cmd}
use redis_like.Command.Strings.Parse.{Options, by_seconds}
use redis_like.Command.Strings.Laws.{granted, set_reply, set_with_lem, get-set_cmd}
use redis_like.Command.Keys.{del_cmd, exists_cmd, expire_with, expire_cmd, ttl_cmd, keys_cmd}
use redis_like.Command.Keys.Laws.{
  to_ℕ, count_seen, exists_del_cmd_lem, timed, expire_with_lem, ttl-expire_cmd,
}
use redis_like.Command.Keys.Found.{seen_matches, keys_cmd_lem}
use redis_like.Command.Keys.Glob.{glob_loop, glob_fuel, match_glob}
use redis_like.Command.Keys.Glob.Ends.{glob_loop-ends}
use redis_like.Command.Keys.Glob.Plain.{glob}
use redis_like.Command.Keys.Glob.Agrees.{match_glob-glob}
use redis_like.Command.Keys.Glob.Misses.{stars_miss}

-- a key that lasts, one that expires at time 50, and a list
abbrev town : RedisObject
town = record { value = string (codes "Bath"); expire_at = none }

abbrev session : RedisObject
session = record { value = string (codes "s1"); expire_at = some (pos 50) }

abbrev queue : RedisObject
queue = record { value = list (codes "a" ∷ []); expire_at = none }

abbrev keyspace : Dict
keyspace = (codes "town", town) ∷ (codes "session", session) ∷ (codes "queue", queue) ∷ []

keyspace-IsDistinct : IsDistinct keyspace
unfolding has same
keyspace-IsDistinct = (refl, (refl, (refl, tt)))

abbrev ex_nx : Options
ex_nx = record { expiry_mode = by_seconds; expiry_ms = pos 9_000; nx = true; xx = false }

set_with_lem_example :
    ((set_with (codes "session") (codes "s2") ex_nx (pos 60) keyspace).0
      ≡ set_reply ex_nx (is_some (view keyspace (pos 60) (codes "session"))))
    × (view
          (set_with (codes "session") (codes "s2") ex_nx (pos 60) keyspace).1
          (pos 60)
          (codes "town")
        ≡ (if granted ex_nx (is_some (view keyspace (pos 60) (codes "session")))
              && same (codes "session") (codes "town")
            then live (pos 60) (some (new_string (codes "s2") ex_nx (pos 60)))
            else view keyspace (pos 60) (codes "town")))
set_with_lem_example =
    set_with_lem (codes "session") (codes "town") (codes "s2") ex_nx (pos 60) keyspace

get-set_cmd_example :
    ((get_cmd
        (codes "k" ∷ [])
        (pos 1_000_007)
        (set_cmd (codes "k" ∷ codes "v" ∷ []) (pos 60) keyspace).1).0
      ≡ bulk_string (codes "v"))
    × ((get_cmd
          (codes "k" ∷ [])
          (pos 1_000_007)
          (set_cmd
            (codes "k" ∷ codes "v" ∷ codes "PX" ∷ to_string (pos 1) ∷ [])
            (pos 7)
            keyspace).1).0
        ≡ (if ltb 1_000_007 (7 + 1_000_000 * 1) then bulk_string (codes "v") else null_bulk_string))
get-set_cmd_example =
    get-set_cmd (codes "k") (codes "v") 1 7 1_000_007 (pos 60) keyspace (omega arith) (omega arith)

exists_del_cmd_lem_example :
    ((exists_cmd (codes "town" ∷ codes "session" ∷ []) (pos 50) keyspace).0
      ≡ integer_ℕ (count_seen (codes "town" ∷ codes "session" ∷ []) (pos 50) keyspace))
    × (view
          (exists_cmd (codes "town" ∷ codes "session" ∷ []) (pos 50) keyspace).1
          (pos 50)
          (codes "queue")
        ≡ view keyspace (pos 50) (codes "queue"))
    × ((n : ℕ) × ((del_cmd (codes "town" ∷ codes "session" ∷ []) (pos 50) keyspace).0 ≡ integer_ℕ n)
        × (n + Dict.size (del_cmd (codes "town" ∷ codes "session" ∷ []) (pos 50) keyspace).1
            ≡ Dict.size keyspace)
        × (view
              (del_cmd (codes "town" ∷ codes "session" ∷ []) (pos 50) keyspace).1
              (pos 50)
              (codes "queue")
            ≡ (if among (codes "queue") (codes "town" ∷ codes "session" ∷ [])
                then none
                else view keyspace (pos 50) (codes "queue"))))
exists_del_cmd_lem_example =
    exists_del_cmd_lem (codes "town") (codes "session" ∷ []) (pos 50) keyspace (codes "queue")
      keyspace-IsDistinct

expire_with_lem_example :
    ((expire_with (codes "town") (negsuc 0) (pos 9) (pos 10) keyspace).0
      ≡ integer_ℕ (to_ℕ (is_some (view keyspace (pos 10) (codes "town")))))
    × (view
          (expire_with (codes "town") (negsuc 0) (pos 9) (pos 10) keyspace).1
          (pos 10)
          (codes "town")
        ≡ (if same (codes "town") (codes "town") && is_some (view keyspace (pos 10) (codes "town"))
            then (if ltb_ℤ (pos 0) (negsuc 0)
                then timed (pos 9) (pos 10) (view keyspace (pos 10) (codes "town"))
                else none)
            else view keyspace (pos 10) (codes "town")))
expire_with_lem_example =
    expire_with_lem (codes "town") (codes "town") (negsuc 0) (pos 9) (pos 10) keyspace

town_seen : view keyspace (pos 10) (codes "town") ≡ some town
unfolding view is_expired find same
town_seen = refl

ttl-expire_cmd_example :
    (ttl_cmd
      (codes "town" ∷ [])
      (pos 4_000_000_009)
      (expire_cmd (codes "town" ∷ to_string (pos 5) ∷ []) (pos 10) keyspace).1).0
    ≡ integer_ℕ ((10 + 1_000_000_000 * 5 - 4_000_000_009) / 1_000_000_000)
ttl-expire_cmd_example =
    ttl-expire_cmd (codes "town") 5 10 4_000_000_009 keyspace town town_seen (omega arith)
      (omega arith) (omega arith)

keys_cmd_lem_example :
    ((keys_cmd (codes "*s*" ∷ []) (pos 50) keyspace).0
      ≡ array (map bulk_string (seen_matches (codes "*s*") (Dict.keys keyspace) (pos 50) keyspace)))
    × (view (keys_cmd (codes "*s*" ∷ []) (pos 50) keyspace).1 (pos 50) (codes "session")
        ≡ view keyspace (pos 50) (codes "session"))
keys_cmd_lem_example = keys_cmd_lem (codes "*s*") [] (pos 50) keyspace (codes "session")

glob_loop-ends_example :
    (b : Bool) × (glob_loop
        (glob_fuel (codes "aab") (codes "*a[b-c"))
        (codes "aab")
        (codes "*a[b-c")
        none
      ≡ some b)
glob_loop-ends_example = glob_loop-ends (codes "aab") (codes "*a[b-c")

match_glob-glob_example :
    match_glob (codes "session") (codes "s*s?o*") ≡ glob (codes "s*s?o*") (codes "session")
match_glob-glob_example =
    match_glob-glob (codes "session") (codes "s*s?o*")
      (refl, (refl, (refl, (refl, (refl, (refl, tt))))))
      (refl, (refl, (refl, (refl, (refl, (refl, (refl, tt)))))))

stars_miss_example :
    (match_glob (codes "ab") (codes "*[b]") ≡ false) × (match_glob (codes "*a") (codes "*") ≡ false)
stars_miss_example =
    stars_miss (codes "ab") (codes "b]") b'a' [] ((refl, refl), ((refl, refl), tt)) refl
