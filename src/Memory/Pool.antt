-- ===== src/Memory/Pool.antt =====
-- ext/memx/pool.go: `MemoryShortCodePool`. Each method runs under the pool's mutex, so it is one
-- step; the mutex itself is not modelled.
pub mod Queue
pub mod Contract
use vshortlink.Prelude.{
  ℕ, ◌+◌, Bool, Option, none, some, List, [], ◌∷◌, ◌++◌, Text, same, ltb, if◌then◌else◌, length,
  Result, ok, Exec,
}
use vshortlink.Prelude.Keyed.{lookup, insert, delete, nat_key}
use vshortlink.Link.{Time}
use vshortlink.Interfaces.{ShortCodePool}

pub record MemoryShortCodePool : Type 0 where
  pub pools : List (ℕ × List Text)
  pub lock_status : List (ℕ × Time)

abbrev pub new_pool : MemoryShortCodePool
new_pool = record { pools = []; lock_status = [] }

pull_first : ℕ → Option (List Text) → Exec MemoryShortCodePool (Text × Bool)
pull_first length' none p = (ok ([], Bool.false), p)
pull_first length' (some []) p = (ok ([], Bool.false), p)
pull_first length' (some (code ∷ rest)) p =
    (ok (code, ltb 10 (length rest)), record p { pools = insert length' rest p.pools })

unfoldable pub pull : ℕ → Exec MemoryShortCodePool (Text × Bool)
unfolding pull_first
pull length' p = pull_first length' (lookup length' p.pools) p

append_code : Text → Option (List Text) → List Text
append_code code none = code ∷ []
append_code code (some codes) = codes ++ code ∷ []

unfoldable pub add : Time → ℕ → Text → Exec MemoryShortCodePool (Unit {0})
unfolding append_code
add now length' code p =
    (ok tt, record p { pools = insert length' (append_code code (lookup length' p.pools)) p.pools })

unfoldable pub size : ℕ → Exec MemoryShortCodePool ℕ
size length' p = (ok (elim (lookup length' p.pools) [ none ↦ 0 | some codes ↦ length codes ]), p)

-- A pool that is locked and has not expired is left as it is, and the call succeeds too.
unfoldable pub lock : Time → ℕ → ℕ → Exec MemoryShortCodePool (Unit {0})
lock now length' expire p =
    let locked = record p { lock_status = insert length' (now + expire) p.lock_status } in
    elim (lookup length' p.lock_status) [
      | none ↦ (ok tt, locked)
      | some lock_time ↦ if ltb now lock_time then (ok tt, p) else (ok tt, locked)
    ]

unfoldable pub unlock : ℕ → MemoryShortCodePool → MemoryShortCodePool
unlock length' p = record p { lock_status = delete length' p.lock_status }

-- The first occurrence goes.
unfoldable pub erase_code : Text → List Text → List Text
erase_code code [] = []
erase_code code (c ∷ codes) = if same c code then codes else c ∷ erase_code code codes

unfoldable pub remove : ℕ → Text → Exec MemoryShortCodePool (Unit {0})
remove length' code p = elim (lookup length' p.pools) [
  | none ↦ (ok tt, p)
  | some codes ↦ (ok tt, record p { pools = insert length' (erase_code code codes) p.pools })
]

unfoldable pub clear : ℕ → Exec MemoryShortCodePool (Unit {0})
clear length' p = (ok tt, record p { pools = insert length' [] p.pools })

unfoldable pub close : Exec MemoryShortCodePool (Unit {0})
close p = (ok tt, p)

abbrev pub memory_pool : ShortCodePool MemoryShortCodePool
memory_pool = record {
  pull = pull;
  add = add;
  remove = remove;
  size = size;
  clear = clear;
  lock = lock;
  unlock = unlock;
  close = close;
}
