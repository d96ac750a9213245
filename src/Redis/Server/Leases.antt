-- ===== src/Redis/Server/Leases.antt =====
-- What the lock relies on of a Redis server that answers: keys that hold a string and end by
-- themselves.
use vshortlink.Prelude.{
  ℕ, ◌%◌, ◌^◌, ◌<◌, ◌≡◌, true, false, Option, none, some, Text, ltb, if◌then◌else◌, ok,
}
use vshortlink.Redis.{Redis}

-- `value` is the string under a key, and `wait` what is left of a database after some nanoseconds.
pub record LeaseLaws {D : Type 0} (redis : Redis D) : Type 0 where
  pub value : D → Text → Option Text
  pub wait : ℕ → D → D
  pub set_nx_new :
      (key v : Text) (ttl : ℕ) (d : D) → value d key ≡ none → (redis.set_nx key v ttl d).0 ≡ ok true
  -- A `ttl` of whole milliseconds, and not 0, is kept to.
  pub set_nx_lease :
      (key v : Text) (ttl : ℕ) (d : D)
      → value d key ≡ none
      → 0 < ttl
      → ttl % 10 ^ 6 ≡ 0
      → (t : ℕ)
      → value (wait t (redis.set_nx key v ttl d).1) key ≡ (if ltb t ttl then some v else none)
  pub set_nx_held :
      (key v held : Text) (ttl : ℕ) (d : D)
      → value d key ≡ some held
      → redis.set_nx key v ttl d ≡ (ok false, d)
  pub get_held :
      (key held : Text) (d : D) → value d key ≡ some held → redis.get key d ≡ (ok (some held), d)
  pub del_drops : (key : Text) (d : D) → value (redis.del key d).1 key ≡ none
