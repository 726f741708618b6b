-- ===== src/Command/Keys/Found.antt =====
-- KEYS of src/command/string_cmd.cpp against what a client can see, and what `MatchGlob` accepts.
use redis_like.Base.{
  ◌≡◌, refl, ap, true, ◌&&◌, none, some, List, [], ◌∷◌, arith, Bytes, same_iff, if◌then◌else◌, ℤ,
  is_some, Bool-cases, Option-cases, inl, inr, map,
}
use redis_like.Resp.{array, bulk_string}
use redis_like.Object.{RedisObject, is_expired}
use redis_like.Dict
use redis_like.Dict.{Dict}
use redis_like.Expire.View.{live, view}
use redis_like.Command.Views.{view-del}
use redis_like.Command.Keys.{matching, keys_cmd}
use redis_like.Command.Keys.Glob.{match_glob}

-- the keys that are seen and that match the pattern
abbrev pub seen_matches : Bytes → List Bytes → ℤ → Dict → List Bytes
seen_matches pattern [] now db = []
seen_matches pattern (key ∷ keys) now db =
    let rest = seen_matches pattern keys now db in
    if is_some (view db now key) && match_glob key pattern then key ∷ rest else rest

abbrev LooksLike : ℤ → Dict → Dict → Type 0
LooksLike now a b = (j : Bytes) → view a now j ≡ view b now j

seen_matches_congr :
    (pattern : Bytes) (keys : List Bytes) (now : ℤ) (a b : Dict)
    → LooksLike now a b
    → seen_matches pattern keys now a ≡ seen_matches pattern keys now b
seen_matches_congr pattern [] now a b h = refl
seen_matches_congr pattern (key ∷ keys) now a b h =
    rw (h key, seen_matches_congr pattern keys now a b h)

-- the deletion of an expired object is not seen
del_expired :
    (db : Dict) (key : Bytes) (obj : RedisObject) (now : ℤ)
    → Dict.get db key ≡ some obj
    → is_expired obj now ≡ true
    → LooksLike now (Dict.del db key).1 db
del_expired db key obj now found old j =
    ground (arith, view-del db key j now, hidden, same_iff key j)
  where
    hidden : view db now key ≡ none
    hidden = unfold view in ground arith

matching-LooksLike :
    (pattern : Bytes) (keys : List Bytes) (now : ℤ) (db : Dict)
    → LooksLike now (matching pattern keys now db).1 db
unfolding matching
matching-LooksLike pattern [] now db j = refl
matching-LooksLike pattern (key ∷ keys) now db j = elim (Option-cases (Dict.get db key)) [
  | inl e ↦ ground (arith, matching-LooksLike pattern keys now db j)
  | inr (obj, e) ↦ elim (Bool-cases (is_expired obj now)) [
    | inl old ↦ ground (
      arith,
      matching-LooksLike pattern keys now (Dict.del db key).1 j,
      del_expired db key obj now e old j,
    )
    | inr young ↦ ground (arith, matching-LooksLike pattern keys now db j)
  ]
]

view-get : (db : Dict) (key : Bytes) (now : ℤ) → view db now key ≡ live now (Dict.get db key)
unfolding view
view-get db key now = refl

matching_lem :
    (pattern : Bytes) (keys : List Bytes) (now : ℤ) (db : Dict)
    → (matching pattern keys now db).0 ≡ seen_matches pattern keys now db
unfolding matching
matching_lem pattern [] now db = refl
matching_lem pattern (key ∷ keys) now db = elim (Option-cases (Dict.get db key)) [
  | inl e ↦ ground (arith, matching_lem pattern keys now db, view-get db key now)
  | inr (obj, e) ↦ elim (Bool-cases (is_expired obj now)) [
    | inl old ↦ ground (
      arith,
      view-get db key now,
      matching_lem pattern keys now (Dict.del db key).1,
      seen_matches_congr pattern keys now (Dict.del db key).1 db (del_expired db key obj now e old),
    )
    | inr young ↦ ground (arith, matching_lem pattern keys now db, view-get db key now)
  ]
]

-- KEYS replies with the keys of the dictionary that hold an object that has not expired and that the
-- pattern matches, each as a bulk string, and changes nothing that is seen.
pub keys_cmd_lem :
    (pattern : Bytes) (rest : List Bytes) (now : ℤ) (db : Dict) (j : Bytes)
    → ((keys_cmd (pattern ∷ rest) now db).0
        ≡ array (map bulk_string (seen_matches pattern (Dict.keys db) now db)))
      × (view (keys_cmd (pattern ∷ rest) now db).1 now j ≡ view db now j)
unfolding keys_cmd
keys_cmd_lem pattern rest now db j = (
  ap (λ l. array (map bulk_string l)) (matching_lem pattern (Dict.keys db) now db),
  matching-LooksLike pattern (Dict.keys db) now db j,
)
