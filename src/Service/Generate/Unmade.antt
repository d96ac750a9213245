-- ===== src/Service/Generate/Unmade.antt =====
-- The batch that `Create` starts for a length without a generator.
use vshortlink.Prelude.{
  ℕ, ◌≤◌, ◌<◌, ◌≡◌, refl, ap, ◌∙◌, false, ◌||◌, none, List, [], ◌∷◌, ◌++◌, Text, length, ok, err,
  panicked, Result-cases, inl, inr, arith,
}
use vshortlink.Prelude.Int.{ℤ, pos, ltb_ℤ}
use vshortlink.Prelude.Keyed.{lookup, nat_key}
use vshortlink.Link.{Time}
use vshortlink.Interfaces.{ShortLinkRepository, ShortLinkCache, ShortCodePool}
use vshortlink.Service.State.{ServiceOption, apply_options, default_config, Config, State, minute}
use vshortlink.Service.Edit.{add, create}
use vshortlink.Service.Generate.{numbers_at, generate_locked, batch_generate, new_service}
use vshortlink.Service.Generate.Start.{new_service-generators}

module _ {R C P T L : Type 0} (repo : ShortLinkRepository R) (cache : ShortLinkCache C)
    (pool : ShortCodePool P) (now : Time) where
  -- `Add` starts no batch, and makes no generator.
  add_starts_nothing :
      (code title link : Text) (expire : Time) (s : State R C P T L)
      → let s' = (add repo cache pool now code title link expire s).1 in
        (s'.spawned ≡ s.spawned) × (s'.generators ≡ s.generators)
  unfolding add
  add_starts_nothing code title link expire s =
      elim (Result-cases (cache.add (length code) code link expire s.cache).0) [
        | inl (u, done) ↦ rw done (refl, refl)
        | inr (e, failed) ↦ rw failed (refl, refl)
      ]

  -- A batch for a length that no generator is held for panics.
  batch_generate_unmade :
      (n : ℕ) (s : State R C P T L) (i : ℤ)
      → (pool.lock now n minute s.pool).0 ≡ ok tt
      → (repo.get_start_index n s.repo).0 ≡ ok i
      → lookup n s.generators ≡ none
      → (batch_generate repo pool now n s).0 ≡ err panicked
  unfolding batch_generate generate_locked numbers_at
  batch_generate_unmade n s i locks index missing = rw (locks, index, numbers_at, missing) refl

  -- Over any repository that answers for a start index, any cache, and any pool that answers for its
  -- size and can be locked: after NewShortLinkService with a batch size from 1 and a largest length of
  -- at most ten, Create of a length from 1 to the largest manual one and to the largest configured one,
  -- for which the pool gives a code as its last ones or none, starts a batch of that length, and the
  -- batch panics.
  pub manual_length_panics :
      (locks : (n : ℕ) (p : P) → (pool.lock now n minute p).0 ≡ ok tt)
      (indexed : (n : ℕ) (r : R) → (i : ℤ) × ((repo.get_start_index n r).0 ≡ ok i))
      (sized : (n : ℕ) (p : P) → (k : ℕ) × ((pool.size n p).0 ≡ ok k)) (opts : List ServiceOption)
      (start s : State R C P T L) (n : ℕ) (code title link : Text) (expire : Time)
      → let c = apply_options opts default_config in
        0 < c.batch_generate_size
        → c.max_code_length ≤ 10
        → 0 < n
        → n ≤ c.manual_code_length
        → n ≤ c.max_code_length
        → s.generators ≡ (new_service repo pool opts now start).1.1.generators
        → (pool.pull n s.pool).0 ≡ ok (code, false)
        → let s' = (create repo cache pool c now title link (pos n) expire s).1 in
          (s'.spawned ≡ s.spawned ++ n ∷ [])
          × ((batch_generate repo pool now n s').0 ≡ err panicked)
  unfolding create
  manual_length_panics locks indexed sized opts start s n code title link expire some_size short low
        manual high same pulled =
      let c : Config = apply_options opts default_config in
      let valid : (ltb_ℤ (pos n) (pos 1) || ltb_ℤ (pos c.max_code_length) (pos n)) ≡ false =
        ground arith in
      let (done, made) = new_service-generators repo pool sized opts now start some_size short in
      let t : State R C P T L = record s {
        pool = (pool.pull n s.pool).1;
        spawned = s.spawned ++ n ∷ [];
      } in
      let (starts, kept) = add_starts_nothing code title link expire t in
      let t' : State R C P T L = (add repo cache pool now code title link expire t).1 in
      let (i, index) = indexed n t'.repo in
      let missing : lookup n t'.generators ≡ none =
        ap (lookup n) (kept ∙ same) ∙ made n ∙ ground arith in
      rw (valid, pulled) (starts, batch_generate_unmade n t' i (locks n t'.pool) index missing)
