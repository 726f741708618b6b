-- ===== src/Command/Views.antt =====
-- The steps that the handlers are made of, by what they do to the visible objects.
use redis_like.Base.{
  ◌≡◌, ◌∙◌, ap, Option, none, some, arith, Bytes, ℤ, if◌then◌else◌, same, same_iff, find, find-put,
  find-erase, has-find, is_some, Option-cases, inl, inr,
}
use redis_like.Object.{Value, RedisObject, is_expired}
use redis_like.Dict
use redis_like.Dict.{Dict}
use redis_like.Expire.View.{live, view, get-checked, view-checked}
use redis_like.Command.Context.{check_expire, typed, or_created, get_typed, get_or_create}

-- `CheckExpire` changes nothing that can be seen.
pub view-check_expire :
    (db : Dict) (key j : Bytes) (now : ℤ) → view (check_expire db key now) now j ≡ view db now j
unfolding check_expire
view-check_expire = view-checked

pub get-check_expire :
    (db : Dict) (key : Bytes) (now : ℤ) → Dict.get (check_expire db key now) key ≡ view db now key
unfolding check_expire
get-check_expire = get-checked

pub exists-check_expire :
    (db : Dict) (key : Bytes) (now : ℤ)
    → Dict.exists (check_expire db key now) key ≡ is_some (view db now key)
unfolding Dict.exists
exists-check_expire db key now =
    has-find key _ ∙ unfold Dict.get in rw (get-check_expire db key now)

pub view-set :
    (db : Dict) (key j : Bytes) (obj : RedisObject) (now : ℤ)
    → view (Dict.set db key obj) now j ≡ (if same key j then live now (some obj) else view db now j)
unfolding view Dict.set
view-set db key j obj now = ground (arith, find-put key j obj db)

pub view-del :
    (db : Dict) (key j : Bytes) (now : ℤ)
    → view (Dict.del db key).1 now j ≡ (if same key j then none else view db now j)
unfolding view Dict.del
view-del db key j now = ground (arith, find-erase key j db)

-- a write into the value of an object
unfoldable pub with_value : Value → Option RedisObject → Option RedisObject
with_value v none = none
with_value v (some obj) = some (record obj { value = v })

pub view-store :
    (db : Dict) (key j : Bytes) (v : Value) (now : ℤ)
    → view (Dict.store db key v) now j
      ≡ (if same key j then with_value v (view db now key) else view db now j)
unfolding view Dict.store with_value is_expired
view-store db key j v now = elim (Option-cases (find key db)) [
  | inl e ↦ ground (arith, same_iff key j)
  | inr (obj, e) ↦ ground (arith, same_iff key j, find-put key j (record obj { value = v }) db)
]

module _ {A : Type 0} (as_type : Value → Option A) where
  pub get_typed_lem :
      (db : Dict) (key : Bytes) (now : ℤ)
      → get_typed as_type db key now ≡ (typed as_type (view db now key), check_expire db key now)
  get_typed_lem db key now =
      unfold get_typed in
      ap (λ o. (typed as_type o, check_expire db key now)) (get-check_expire db key now)

  pub get_or_create_lem :
      (created : RedisObject) (fresh : A) (db : Dict) (key : Bytes) (now : ℤ)
      → get_or_create as_type created fresh db key now
        ≡ or_created as_type created fresh (check_expire db key now) key (view db now key)
  get_or_create_lem created fresh db key now =
      unfold get_or_create in
      ap (or_created as_type created fresh (check_expire db key now) key)
        (get-check_expire db key now)
