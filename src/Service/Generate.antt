-- ===== src/Service/Generate.antt =====
-- cores/service.go: `batchGenerate` and `NewShortLinkService`.
pub mod Issue
pub mod Start
pub mod Unmade
pub mod Lawful
use vshortlink.Prelude.{
  ℕ, zero, suc, ◌+◌, ◌-◌, none, some, List, [], ◌∷◌, ltb, if◌then◌else◌, Result, ok, err, Exec,
  panicked, ◌>>=◌, ◌>>◌, pure,
}
use vshortlink.Prelude.Int.{ℤ, pos, add64}
use vshortlink.Prelude.Keyed.{lookup, insert, nat_key}
use vshortlink.Base62.{to_base62}
use vshortlink.Gen.{Generator, new_generator, generate_batch_numbers}
use vshortlink.Link.{Time}
use vshortlink.Recorder.{new_recorder}
use vshortlink.Interfaces.{ShortLinkRepository, ShortCodePool}
use vshortlink.Service.State.{
  Config, ServiceOption, apply_options, default_config, State, on_repo, on_pool, minute,
}

module _ {R C P T L : Type 0} where
  -- `s.generators[length].GenerateBatchNumbers(...)`; a missing generator is a nil dereference.
  unfoldable pub numbers_at : ℕ → ℤ → Exec (State R C P T L) (List ℤ)
  numbers_at length' start_index s = elim (lookup length' s.generators) [
    | none ↦ (err panicked, s)
    | some g ↦ (generate_batch_numbers g start_index, s)
  ]

  -- `defer s.Pool.Unlock(ctx, length)` around the rest of a method.
  abbrev pub unlocking :
      {A : Type 0} → ShortCodePool P → ℕ → Exec (State R C P T L) A → Exec (State R C P T L) A
  unlocking pool length' body s =
      let (r, s') = body s in (r, record s' { pool = pool.unlock length' s'.pool })

  -- What `NewShortLinkService` makes before it fills the pools.
  abbrev pub new_state : Config → State R C P T L → State R C P T L
  new_state c s = record s {
    recorder = if c.stats_enabled then new_recorder c.stats_buffer_size else s.recorder;
    generators = [];
    spawned = [];
  }

module _ {R C P T L : Type 0} (repo : ShortLinkRepository R) (pool : ShortCodePool P) where
  -- The loop over the batch: the first error ends it.
  unfoldable pub add_batch : Time → ℕ → List ℤ → Exec (State R C P T L) (Unit {0})
  add_batch now length' [] = pure tt
  add_batch now length' (number ∷ numbers) = do
    on_pool (pool.add now length' (to_base62 number length'))
    add_batch now length' numbers

  generate_locked : Time → ℕ → Exec (State R C P T L) (Unit {0})
  unfolding numbers_at add_batch
  generate_locked now short_code_length = do
    start_index ← on_repo (repo.get_start_index short_code_length)
    batch_numbers ← numbers_at short_code_length start_index
    add_batch now short_code_length batch_numbers
    on_repo (repo.save_start_index now short_code_length (add64 start_index (pos 1)))

  -- The source logs the error and returns; here it is the result.
  unfoldable pub batch_generate : Time → ℕ → Exec (State R C P T L) (Unit {0})
  unfolding generate_locked
  batch_generate now short_code_length = do
    on_pool (pool.lock now short_code_length minute)
    unlocking pool short_code_length (generate_locked now short_code_length)

  abbrev ignore_error : {A : Type 0} → Exec (State R C P T L) A → Exec (State R C P T L) (Unit {0})
  ignore_error m s = (ok tt, (m s).1)

  -- `batchGenerate` logs its own error. It cannot panic here: the generator stands in the state first.
  fill_pool : Time → ℕ → Generator → Exec (State R C P T L) (Unit {0})
  unfolding batch_generate
  fill_pool now i g = do
    (λ s. (ok tt, record s { generators = insert i g s.generators }))
    size ← on_pool (pool.size i)
    if ltb size 100 then ignore_error (batch_generate now i) else pure tt

  -- The loop of `NewShortLinkService` from the length `i` on: `rounds` lengths. An error of
  -- `pool.Size` panics in the source; here it is the result.
  unfoldable pub init_pools : Config → Time → ℕ → ℕ → Exec (State R C P T L) (Unit {0})
  unfolding fill_pool
  init_pools c now zero i = pure tt
  init_pools c now (suc rounds) i = do
    g ← (λ s. (new_generator i c.batch_generate_size, s))
    fill_pool now i g
    init_pools c now rounds (i + 1)

  -- `NewShortLinkService` on a state that holds the backends.
  unfoldable pub new_service :
      List ServiceOption → Time → State R C P T L → Config × (Result (Unit {0}) × State R C P T L)
  unfolding init_pools apply_options
  new_service opts now s =
      let c = apply_options opts default_config in
      (
        c,
        init_pools c now (c.max_code_length - c.manual_code_length) (c.manual_code_length + 1)
            (new_state c s),
      )
