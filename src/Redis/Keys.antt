-- ===== src/Redis/Keys.antt =====
-- The keys of ext/redisx: pool.go, cache.go and stats.go.
pub mod Apart
use vshortlink.Prelude.{List, [], ◌∷◌, ℕ, ◌*◌, ◌/◌, ◌^◌, ◌++◌, Text, codes, Bool, true, ltb}
use vshortlink.Prelude.Int.{ℤ, pos, negsuc, sub_ℕ, add64}
use vshortlink.Prelude.Decimal.{format_int}
use vshortlink.Link.{Time}

-- `fmt.Sprintf("shortlink:pool:%d", length)`, and so on.
unfoldable pub get_pool_key : Text → ℕ → Text
get_pool_key key_prefix length' =
    key_prefix ++ (codes "shortlink:pool:" ++ format_int (pos length'))

unfoldable pub get_lock_key : Text → ℕ → Text
get_lock_key key_prefix length' =
    key_prefix ++ (codes "shortlink:pool:lock:" ++ format_int (pos length'))

unfoldable pub get_cache_key : Text → ℕ → Text
get_cache_key key_prefix length' =
    key_prefix ++ (codes "shortlink:cache:" ++ format_int (pos length'))

unfoldable pub get_stats_key : Text → Text → Text
get_stats_key key_prefix day = key_prefix ++ (codes "shortlink:stats:" ++ day)

-- `t.Unix()`: the seconds from 1970, of nanoseconds from Go's zero time.
abbrev pub unix_offset : ℕ
unix_offset = 62135596800

abbrev pub unix : Time → ℤ
unix t = sub_ℕ (t / 10 ^ 9) unix_offset

after_second : Time → ℤ → Bool
after_second now (pos s) = ltb (s * 10 ^ 9) now
after_second now (negsuc s) = true

-- `now.After(time.Unix(sec, 0))`; the sum of seconds is an `int64`.
unfoldable pub after_unix : Time → ℤ → Bool
unfolding after_second
after_unix now sec = after_second now (add64 sec (pos unix_offset))

-- `CacheOption` and `PoolOption`, which only set the prefix of the keys, and the loops that apply them.
pub data PrefixOption : Type 0 where
  with_key_prefix : Text → PrefixOption

unfoldable pub key_prefix_of : List PrefixOption → Text → Text
key_prefix_of [] key_prefix = key_prefix
key_prefix_of (with_key_prefix prefix ∷ opts) key_prefix = key_prefix_of opts prefix
