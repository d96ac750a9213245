-- ===== src/Interfaces/Contract.antt =====
-- What the service may rely on of a cache and of a pool, whatever holds their data.
use vshortlink.Prelude.{
  ℕ, ◌+◌, ◌≤◌, ◌<◌, ◌≡◌, ◌⊎◌, Bool, false, ◌&&◌, Option, none, some, [], Text, same, ltb, ◌==◌,
  if◌then◌else◌, ok, Result, ◌-◌,
}
use vshortlink.Link.{Time}
use vshortlink.Interfaces.{ShortLinkCache, ShortCodePool}

-- A cache shows, at an instant, a link under a pair of a length and a code. It may keep the expiry
-- less exactly than it is given, as `kept` says, and take only some links, as `Takes` says.
pub record CacheLaws {C : Type 0} (cache : ShortLinkCache C) : Type 1 where
  pub IsFine : C → Type 0
  pub Takes : Text → Time → Type 0
  pub kept : Time → Time
  pub shown : C → Time → ℕ → Text → Option Text
  -- `get` answers what is shown, and changes nothing that is shown from then on.
  pub get_shown :
      (c : C) (now : Time) (n : ℕ) (k : Text)
      → IsFine c
      → ((cache.get now n k c).0 ≡ shown c now n k)
        × IsFine (cache.get now n k c).1
        × ((later : Time) (m : ℕ) (j : Text)
            → now ≤ later
            → shown (cache.get now n k c).1 later m j ≡ shown c later m j)
  -- `add` has its link shown until it expires, and changes nothing else.
  pub add_shown :
      (c : C) (n : ℕ) (k link : Text) (e : Time)
      → IsFine c
      → Takes link e
      → ((cache.add n k link e c).0 ≡ ok tt)
        × IsFine (cache.add n k link e c).1
        × ((now : Time) (m : ℕ) (j : Text)
            → shown (cache.add n k link e c).1 now m j ≡ (
                if (n == m) && same k j
                then (if ltb (kept e) now then none else some link)
                else shown c now m j))
  -- `remove` has nothing shown under its pair, and changes nothing else.
  pub remove_shown :
      (c : C) (n : ℕ) (k : Text)
      → IsFine c
      → ((cache.remove n k c).0 ≡ ok tt)
        × IsFine (cache.remove n k c).1
        × ((now : Time) (m : ℕ) (j : Text)
            → shown (cache.remove n k c).1 now m j
              ≡ (if (n == m) && same k j then none else shown c now m j))

-- A pull from a pool that has no code of the length, or of a code that it has.
abbrev pub Pulled : {P : Type 0} → (P → ℕ → Text → ℕ) → ℕ → P → Result (Text × Bool) × P → Type 0
Pulled amount n p (r, p') =
    ((r ≡ ok ([], false))
      × ((m : ℕ) (x : Text) → (amount p n x ≡ 0) × (amount p' m x ≡ amount p m x)))
    ⊎ ((code : Text) × (enough : Bool) × (r ≡ ok (code, enough))
        × ((m : ℕ) (x : Text)
            → amount p m x ≡ amount p' m x + (if (n == m) && same code x then 1 else 0)))

-- A pool holds, for each length, every code a number of times.
pub record PoolLaws {P : Type 0} (pool : ShortCodePool P) : Type 1 where
  pub IsFine : P → Type 0
  pub amount : P → ℕ → Text → ℕ
  pub pull_amount :
      (p : P) (n : ℕ) → IsFine p → IsFine (pool.pull n p).1 × Pulled amount n p (pool.pull n p)
  -- `add` has the code held, once more or as before.
  pub add_amount :
      (p : P) (now : Time) (n : ℕ) (k : Text)
      → IsFine p
      → ((pool.add now n k p).0 ≡ ok tt)
        × IsFine (pool.add now n k p).1
        × (0 < amount (pool.add now n k p).1 n k)
        × (amount (pool.add now n k p).1 n k ≤ amount p n k + 1)
        × ((m : ℕ) (x : Text)
            → ((n == m) && same k x) ≡ false
            → amount (pool.add now n k p).1 m x ≡ amount p m x)
  -- `remove` takes one of a code away, and `clear` all of a length.
  pub remove_amount :
      (p : P) (n : ℕ) (k : Text)
      → IsFine p
      → ((pool.remove n k p).0 ≡ ok tt)
        × IsFine (pool.remove n k p).1
        × ((m : ℕ) (x : Text)
            → amount (pool.remove n k p).1 m x
              ≡ (if (n == m) && same k x then amount p m x - 1 else amount p m x))
  pub clear_amount :
      (p : P) (n : ℕ)
      → IsFine p
      → ((pool.clear n p).0 ≡ ok tt)
        × IsFine (pool.clear n p).1
        × ((m : ℕ) (x : Text)
            → amount (pool.clear n p).1 m x ≡ (if n == m then 0 else amount p m x))
  -- The lock of a length leaves the codes alone.
  pub lock_amount :
      (p : P) (now : Time) (n expire : ℕ)
      → IsFine p
      → IsFine (pool.lock now n expire p).1
        × ((m : ℕ) (x : Text) → amount (pool.lock now n expire p).1 m x ≡ amount p m x)
  pub unlock_amount :
      (p : P) (n : ℕ)
      → IsFine p
      → IsFine (pool.unlock n p)
        × ((m : ℕ) (x : Text) → amount (pool.unlock n p) m x ≡ amount p m x)
