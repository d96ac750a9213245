-- ===== src/Interfaces.antt =====
-- The interfaces of cores/repo.go, cache.go, pool.go and stats.go: records of operations over the
-- state of an implementation. A call that reads the clock takes the instant as its first argument.
pub mod Contract
use vshortlink.Prelude.{ℕ, Bool, Option, List, Text, Exec}
use vshortlink.Prelude.Int.{ℤ}
use vshortlink.Link.{Time, LinkStatus, ShortLink}

-- `create` returns the link that the caller holds afterwards, with its new id.
pub record ShortLinkRepository (R : Type 0) : Type 0 where
  pub create : Time → ShortLink → Exec R ShortLink
  pub update : Time → ShortLink → Exec R (Unit {0})
  pub updates : Time → List ShortLink → Exec R (Unit {0})
  pub delete : ℕ → Exec R (Unit {0})
  pub delete_by_code : Text → Exec R (Unit {0})
  pub get_by_code : Text → Exec R (Option ShortLink)
  pub get_by_id : ℕ → Exec R (Option ShortLink)
  pub find_expired_actives : Time → ℕ → ℕ → Exec R (List ShortLink)
  pub find_expires : ℕ → Time → ℕ → Exec R (List ShortLink)
  pub list : ℤ → List LinkStatus → ℕ → ℤ → Bool → Exec R (List ShortLink)
  pub get_start_index : ℕ → Exec R ℤ
  pub save_start_index : Time → ℕ → ℤ → Exec R (Unit {0})

pub record ShortLinkCache (C : Type 0) : Type 0 where
  pub get : Time → ℕ → Text → C → Option Text × C
  pub add : ℕ → Text → Text → Time → Exec C (Unit {0})
  pub remove : ℕ → Text → Exec C (Unit {0})
  pub close : Exec C (Unit {0})

-- `pull` returns the code and whether enough codes are left.
pub record ShortCodePool (P : Type 0) : Type 0 where
  pub pull : ℕ → Exec P (Text × Bool)
  pub add : Time → ℕ → Text → Exec P (Unit {0})
  pub remove : ℕ → Text → Exec P (Unit {0})
  pub size : ℕ → Exec P ℕ
  pub clear : ℕ → Exec P (Unit {0})
  pub lock : Time → ℕ → ℕ → Exec P (Unit {0})
  pub unlock : ℕ → P → P
  pub close : Exec P (Unit {0})

-- Days and codes are texts; a map is an association list.
pub record ShortLinkStats (T : Type 0) : Type 0 where
  pub incr_batch : Text → List (Text × ℕ) → Exec T (Unit {0})
  pub get : Text → List Text → Exec T (List (Text × ℕ))
  pub batch_get : List Text → List Text → Exec T (List (Text × List (Text × ℕ)))
  pub close : Exec T (Unit {0})
