-- ===== src/Redis/Server.antt =====
-- What the source relies on of a Redis server that answers: the documented effects of its commands,
-- on keys that hold a value of the command's type or none.
pub mod Frame
pub mod Leases
use vshortlink.Prelude.{
  ℕ, ◌+◌, ◌≤◌, ◌<◌, ◌≡◌, Bool, true, false, Option, none, some, List, [], ◌∷◌, map, Text, same,
  occurrences, if◌then◌else◌, length, Result, ok,
}
use vshortlink.Prelude.Int.{ℤ, pos, add_ℤ, ltb_ℤ}
use vshortlink.Prelude.Decimal.{format_int, parse_int}
use vshortlink.Prelude.Decimal.RoundTrip.{IsInt64}
use vshortlink.Redis.{Redis}

-- The value of a key. The members of a sorted set are in the order of `ZPOPMIN`.
pub data Value : Type 0 where
  absent : Value
  string : Text → Value
  sorted : List Text → Value
  hash : (Text → Option Text) → Value

abbrev pub holds_sorted : Value → Bool
holds_sorted absent = true
holds_sorted (string t) = false
holds_sorted (sorted ms) = true
holds_sorted (hash f) = false

abbrev pub holds_hash : Value → Bool
holds_hash absent = true
holds_hash (string t) = false
holds_hash (sorted ms) = false
holds_hash (hash f) = true

abbrev pub members : Value → List Text
members absent = []
members (string t) = []
members (sorted ms) = ms
members (hash f) = []

abbrev pub field : Value → Text → Option Text
field absent k = none
field (string t) k = none
field (sorted ms) k = none
field (hash f) k = f k

-- The first member, if there is one, and the others.
abbrev pub at_most_one : List Text → List Text
at_most_one [] = []
at_most_one (m ∷ ms) = m ∷ []

abbrev pub others : List Text → List Text
others [] = []
others (m ∷ ms) = ms

-- What `HINCRBY` reads of a field; a missing one is 0.
abbrev pub number_of : Option Text → Option ℤ
number_of none = some (pos 0)
number_of (some t) = parse_int t

pub record RedisLaws {D : Type 0} (redis : Redis D) : Type 0 where
  pub stored : D → Text → Value
  -- A sorted set has no member twice.
  pub once : (d : D) (key x : Text) → occurrences x (members (stored d key)) ≤ 1
  pub z_add_ok :
      (key : Text) (score : ℤ) (m : Text) (d : D)
      → holds_sorted (stored d key) ≡ true
      → ((redis.z_add key score m d).0 ≡ ok tt)
        × (holds_sorted (stored (redis.z_add key score m d).1 key) ≡ true)
        × ((x : Text)
            → occurrences x (members (stored (redis.z_add key score m d).1 key))
              ≡ (if same m x then 1 else occurrences x (members (stored d key))))
  pub z_add_other :
      (key j : Text) (score : ℤ) (m : Text) (d : D)
      → same key j ≡ false
      → stored (redis.z_add key score m d).1 j ≡ stored d j
  pub z_pop_min_ok :
      (key : Text) (d : D)
      → holds_sorted (stored d key) ≡ true
      → ((redis.z_pop_min key d).0 ≡ ok (at_most_one (members (stored d key))))
        × (holds_sorted (stored (redis.z_pop_min key d).1 key) ≡ true)
        × (members (stored (redis.z_pop_min key d).1 key) ≡ others (members (stored d key)))
  pub z_pop_min_other :
      (key j : Text) (d : D) → same key j ≡ false → stored (redis.z_pop_min key d).1 j ≡ stored d j
  pub z_card_ok :
      (key : Text) (d : D)
      → holds_sorted (stored d key) ≡ true
      → redis.z_card key d ≡ (ok (length (members (stored d key))), d)
  pub z_rem_ok :
      (key m : Text) (d : D)
      → holds_sorted (stored d key) ≡ true
      → ((redis.z_rem key m d).0 ≡ ok tt)
        × (holds_sorted (stored (redis.z_rem key m d).1 key) ≡ true)
        × ((x : Text)
            → occurrences x (members (stored (redis.z_rem key m d).1 key))
              ≡ (if same m x then 0 else occurrences x (members (stored d key))))
  pub z_rem_other :
      (key j m : Text) (d : D) → same key j ≡ false → stored (redis.z_rem key m d).1 j ≡ stored d j
  pub del_ok :
      (key : Text) (d : D)
      → ((redis.del key d).0 ≡ ok tt) × (stored (redis.del key d).1 key ≡ absent)
  pub del_other :
      (key j : Text) (d : D) → same key j ≡ false → stored (redis.del key d).1 j ≡ stored d j
  pub set_nx_other :
      (key j value : Text) (ttl : ℕ) (d : D)
      → same key j ≡ false
      → stored (redis.set_nx key value ttl d).1 j ≡ stored d j
  -- A read changes nothing.
  pub get_reads : (key : Text) (d : D) (j : Text) → stored (redis.get key d).1 j ≡ stored d j
  pub h_set_ok :
      (key f v : Text) (d : D)
      → holds_hash (stored d key) ≡ true
      → ((redis.h_set key f v d).0 ≡ ok tt)
        × (holds_hash (stored (redis.h_set key f v d).1 key) ≡ true)
        × ((g : Text)
            → field (stored (redis.h_set key f v d).1 key) g
              ≡ (if same f g then some v else field (stored d key) g))
  pub h_set_other :
      (key j f v : Text) (d : D)
      → same key j ≡ false
      → stored (redis.h_set key f v d).1 j ≡ stored d j
  pub h_get_ok :
      (key f : Text) (d : D)
      → holds_hash (stored d key) ≡ true
      → redis.h_get key f d ≡ (ok (field (stored d key) f), d)
  pub h_m_get_ok :
      (key : Text) (fs : List Text) (d : D)
      → holds_hash (stored d key) ≡ true
      → redis.h_m_get key fs d ≡ (ok (map (field (stored d key)) fs), d)
  pub h_del_ok :
      (key f : Text) (d : D)
      → holds_hash (stored d key) ≡ true
      → ((redis.h_del key f d).0 ≡ ok tt)
        × (holds_hash (stored (redis.h_del key f d).1 key) ≡ true)
        × ((g : Text)
            → field (stored (redis.h_del key f d).1 key) g
              ≡ (if same f g then none else field (stored d key) g))
  pub h_del_other :
      (key j f : Text) (d : D) → same key j ≡ false → stored (redis.h_del key f d).1 j ≡ stored d j
  -- A missing field counts as 0; a sum that is no `int64` is an error, of which nothing is said.
  pub h_incr_by_ok :
      (key f : Text) (old δ sum : ℤ) (d : D)
      → holds_hash (stored d key) ≡ true
      → number_of (field (stored d key) f) ≡ some old
      → add_ℤ old δ ≡ sum
      → IsInt64 sum
      → ((redis.h_incr_by key f δ d).0 ≡ ok tt)
        × (holds_hash (stored (redis.h_incr_by key f δ d).1 key) ≡ true)
        × ((g : Text)
            → field (stored (redis.h_incr_by key f δ d).1 key) g
              ≡ (if same f g then some (format_int sum) else field (stored d key) g))
  pub h_incr_by_other :
      (key j f : Text) (δ : ℤ) (d : D)
      → same key j ≡ false
      → stored (redis.h_incr_by key f δ d).1 j ≡ stored d j
  -- With a `ttl` above 0 the key stays, for now.
  pub expire_ok :
      (key : Text) (ttl : ℤ) (d : D)
      → ltb_ℤ (pos 0) ttl ≡ true
      → ((redis.expire key ttl d).0 ≡ ok tt)
        × ((j : Text) → stored (redis.expire key ttl d).1 j ≡ stored d j)
