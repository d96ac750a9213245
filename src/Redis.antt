-- ===== src/Redis.antt =====
-- ext/redisx: the backends over Redis. The client, go-redis, is third-party: a record of the
-- commands that the source sends, over the state of the server.
pub mod Keys
pub mod Server
pub mod Cache
pub mod Pool
pub mod Stats
use vshortlink.Prelude.{ℕ, Bool, Option, List, Text, Exec}
use vshortlink.Prelude.Int.{ℤ}

-- Keys, fields and members are texts; `none` is the reply `redis.Nil`. Of `z_pop_min` the source
-- reads the members, of `expire` the error.
pub record Redis (D : Type 0) : Type 0 where
  pub z_add : Text → ℤ → Text → Exec D (Unit {0})
  pub z_pop_min : Text → Exec D (List Text)
  pub z_card : Text → Exec D ℕ
  pub z_rem : Text → Text → Exec D (Unit {0})
  pub del : Text → Exec D (Unit {0})
  pub set_nx : Text → Text → ℕ → Exec D Bool
  pub get : Text → Exec D (Option Text)
  pub h_get : Text → Text → Exec D (Option Text)
  pub h_set : Text → Text → Text → Exec D (Unit {0})
  pub h_del : Text → Text → Exec D (Unit {0})
  pub h_incr_by : Text → Text → ℤ → Exec D (Unit {0})
  pub expire : Text → ℤ → Exec D (Unit {0})
  pub h_m_get : Text → List Text → Exec D (List (Option Text))
