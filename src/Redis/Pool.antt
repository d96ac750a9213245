-- ===== src/Redis/Pool.antt =====
-- ext/redisx/pool.go: `RedisShortCodePool`.
pub mod Lock
pub mod Leases
pub mod Laws
use vshortlink.Prelude.{
  ℕ, zero, suc, ◌+◌, ◌/◌, ◌^◌, Option, none, some, List, [], ◌∷◌, Text, Bool, true, false, ltb,
  if◌then◌else◌, Result, ok, err, Exec, pool_locked, not_a_number, out_of_fuel, ◌>>=◌, ◌>>◌, pure,
  throw,
}
use vshortlink.Prelude.Int.{ℤ, ltb_ℤ}
use vshortlink.Prelude.Decimal.{format_int, parse_int}
use vshortlink.Link.{Time}
use vshortlink.Interfaces.{ShortCodePool}
use vshortlink.Redis.{Redis}
use vshortlink.Redis.Keys.{PrefixOption, key_prefix_of, get_pool_key, get_lock_key, unix}

module _ {D : Type 0} (redis : Redis D) (key_prefix : Text) where
  unfoldable pub size : ℕ → Exec D ℕ
  size length' = redis.z_card (get_pool_key key_prefix length')

  -- An error of `Size` after a pull is no error of `Pull`.
  pub enough_of : Result ℕ → Bool
  enough_of (err e) = false
  enough_of (ok size) = ltb 100 size

  pub pull_first : ℕ → List Text → Exec D (Text × Bool)
  unfolding enough_of size
  pull_first length' [] d = (ok ([], Bool.false), d)
  pull_first length' (code ∷ rest) d = let (r, d') = size length' d in (ok (code, enough_of r), d')

  unfoldable pub pull : ℕ → Exec D (Text × Bool)
  unfolding pull_first
  pull length' = do
    values ← redis.z_pop_min (get_pool_key key_prefix length')
    pull_first length' values

  unfoldable pub add : Time → ℕ → Text → Exec D (Unit {0})
  add now length' short_code = redis.z_add (get_pool_key key_prefix length') (unix now) short_code

  unfoldable pub unlock : ℕ → D → D
  unlock length' d = (redis.del (get_lock_key key_prefix length') d).1

  -- `ParseInt` of the value of the lock.
  pub lock_time : Option ℤ → Exec D ℤ
  lock_time none = throw not_a_number
  lock_time (some expire_time) = pure expire_time

  -- What follows a `SetNX` that did not set the key: `retry` is the call of `Lock` again.
  pub lock_held : Exec D (Unit {0}) → Time → ℕ → Option Text → Exec D (Unit {0})
  unfolding unlock lock_time
  lock_held retry now length' none = retry
  lock_held retry now length' (some expire_time_str) = do
    expire_time ← lock_time (parse_int expire_time_str)
    (if ltb_ℤ expire_time (unix now) then (λ d. retry (unlock length' d)) else throw pool_locked)

  -- `fuel` bounds the calls of `Lock` by itself.
  unfoldable pub lock : ℕ → Time → ℕ → ℕ → Exec D (Unit {0})
  unfolding lock_held
  lock zero now length' expire = throw out_of_fuel
  lock (suc fuel) now length' expire = do
    success ←
        redis.set_nx (get_lock_key key_prefix length') (format_int (unix (now + expire))) expire
    (if success
        then pure tt
        else (redis.get (get_lock_key key_prefix length')
            >>= lock_held (lock fuel now length' expire) now length'))

  unfoldable pub remove : ℕ → Text → Exec D (Unit {0})
  remove length' short_code = redis.z_rem (get_pool_key key_prefix length') short_code

  unfoldable pub clear : ℕ → Exec D (Unit {0})
  clear length' = redis.del (get_pool_key key_prefix length')

  unfoldable pub close : Exec D (Unit {0})
  close d = (ok tt, d)

  abbrev pub redis_pool : ℕ → ShortCodePool D
  redis_pool fuel = record {
    pull = pull;
    add = add;
    remove = remove;
    size = size;
    clear = clear;
    lock = lock fuel;
    unlock = unlock;
    close = close;
  }

abbrev pub new_redis_pool : {D : Type 0} → Redis D → List PrefixOption → ℕ → ShortCodePool D
new_redis_pool redis opts fuel = redis_pool redis (key_prefix_of opts []) fuel
