-- ===== src/Redis/Cache.antt =====
-- ext/redisx/cache.go: `RedisShortLinkCache`.
pub mod Entries
pub mod Contract
use vshortlink.Prelude.{
  ℕ, Option, none, some, List, [], ◌∷◌, ◌++◌, Text, Bool, if◌then◌else◌, Result, ok, err, Exec,
}
use vshortlink.Prelude.Int.{ℤ, ltb_ℤ}
use vshortlink.Prelude.Decimal.{format_int, parse_int, split_once}
use vshortlink.Link.{Time}
use vshortlink.Interfaces.{ShortLinkCache}
use vshortlink.Redis.{Redis}
use vshortlink.Redis.Keys.{PrefixOption, key_prefix_of, get_cache_key, unix, after_unix}

unfoldable pub format_link_with_expire_time : Text → Time → Text
format_link_with_expire_time link expire_time = link ++ b'\n' ∷ format_int (unix expire_time)

abbrev pub split_link_and_expire_time : Text → List Text
split_link_and_expire_time value = split_once b'\n' value

abbrev pub parse_expire_time : Text → Option ℤ
parse_expire_time expire_time_str = parse_int expire_time_str

-- The two parts of a value; `none` where there are not two, or the second is no number.
unfoldable pub read_parts : List Text → Option (Text × ℤ)
read_parts [] = none
read_parts (link ∷ []) = none
read_parts (link ∷ time ∷ []) = elim (parse_expire_time time) [
  | none ↦ none
  | some expire_time_unix ↦ some (link, expire_time_unix)
]
read_parts (link ∷ time ∷ more ∷ parts) = none

module _ {D : Type 0} (redis : Redis D) (key_prefix : Text) where
  unfoldable pub add : ℕ → Text → Text → Time → Exec D (Unit {0})
  add length' code link expire_time =
      redis.h_set (get_cache_key key_prefix length') code
        (format_link_with_expire_time link expire_time)

  unfoldable pub remove : ℕ → Text → Exec D (Unit {0})
  remove length' code = redis.h_del (get_cache_key key_prefix length') code

  pub check_expiry : Time → ℕ → Text → Option (Text × ℤ) → D → Option Text × D
  check_expiry now length' code none d = (none, d)
  check_expiry now length' code (some (link, expire_time_unix)) d =
      if after_unix now expire_time_unix then (none, (remove length' code d).1) else (some link, d)

  pub read_reply : Time → ℕ → Text → Result (Option Text) → D → Option Text × D
  unfolding read_parts check_expiry
  read_reply now length' code (err e) d = (none, d)
  read_reply now length' code (ok none) d = (none, d)
  read_reply now length' code (ok (some value)) d =
      check_expiry now length' code (read_parts (split_link_and_expire_time value)) d

  unfoldable pub get : Time → ℕ → Text → D → Option Text × D
  unfolding read_reply
  get now length' code d =
      let (r, d') = redis.h_get (get_cache_key key_prefix length') code d in
      read_reply now length' code r d'

  unfoldable pub close : Exec D (Unit {0})
  close d = (ok tt, d)

  abbrev pub redis_cache : ShortLinkCache D
  redis_cache = record { get = get; add = add; remove = remove; close = close }

abbrev pub new_redis_cache : {D : Type 0} → Redis D → List PrefixOption → ShortLinkCache D
new_redis_cache redis opts = redis_cache redis (key_prefix_of opts [])
