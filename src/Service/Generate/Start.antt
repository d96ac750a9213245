-- ===== src/Service/Generate/Start.antt =====
-- The generators after `NewShortLinkService`.
use vshortlink.Prelude.{
  ℕ, zero, suc, ◌+◌, ◌-◌, ◌≤◌, ◌<◌, ◌≡◌, refl, ap, ◌∙◌, ◌&&◌, Option, none, some, List, [], ◌∷◌,
  ltb, leb, ◌==◌, ==_iff, if◌then◌else◌, ok, Exec, Bool-cases, Option-cases, inl, inr, arith,
}
use vshortlink.Prelude.Int.{ℤ}
use vshortlink.Prelude.Keyed.{lookup, insert, lookup-insert, nat_key, lookup_nil}
use vshortlink.Base62.{to_base62}
use vshortlink.Gen.{Generator, new_generator}
use vshortlink.Gen.Batches.{generator_of, new_generator_lem}
use vshortlink.Link.{Time}
use vshortlink.Interfaces.{ShortLinkRepository, ShortCodePool}
use vshortlink.Service.State.{
  Config, ServiceOption, apply_options, default_config, State, on_repo, on_pool, minute,
}
use vshortlink.Service.Keeps.{Keeps, bind-Keeps}
use vshortlink.Service.Generate.{
  numbers_at, add_batch, generate_locked, batch_generate, unlocking, fill_pool, init_pools,
  new_service, new_state,
}

module _ {R C P T L : Type 0} where
  -- A method that leaves the generators as they are.
  abbrev KeepsGenerators : {A : Type 0} → Exec (State R C P T L) A → Type 0
  KeepsGenerators = Keeps (λ s. s.generators)

  numbers_at-Keeps : (n : ℕ) (start_index : ℤ) → KeepsGenerators (numbers_at n start_index)
  unfolding numbers_at
  numbers_at-Keeps n start_index s = elim (Option-cases (lookup n s.generators)) [
    | inl missing ↦ rw (missing, numbers_at) refl
    | inr (g, found) ↦ rw (found, numbers_at) refl
  ]

module _ {R C P T L : Type 0} (repo : ShortLinkRepository R) (pool : ShortCodePool P)
    (now : Time) where
  add_batch-Keeps :
      (n : ℕ) (numbers : List ℤ)
      → KeepsGenerators (add_batch {R = R} {C = C} {T = T} {L = L} repo pool now n numbers)
  unfolding add_batch
  add_batch-Keeps n [] s = refl
  add_batch-Keeps n (number ∷ numbers) s =
      bind-Keeps (λ s. s.generators) (on_pool (pool.add now n (to_base62 number n)))
        (λ u. add_batch repo pool now n numbers) (λ t. refl) (λ u. add_batch-Keeps n numbers) s

  batch_generate-Keeps :
      (n : ℕ) → KeepsGenerators (batch_generate {R = R} {C = C} {T = T} {L = L} repo pool now n)
  unfolding batch_generate generate_locked
  batch_generate-Keeps n =
      bind-Keeps (λ s. s.generators) (on_pool (pool.lock now n minute))
        (λ u. unlocking pool n (generate_locked repo pool now n)) (λ s. refl)
        (λ u s.
          bind-Keeps (λ s. s.generators) (on_repo (repo.get_start_index n)) _ (λ t. refl)
            (λ i.
              bind-Keeps (λ s. s.generators) (numbers_at n i) _ (numbers_at-Keeps n i)
                (λ numbers.
                  bind-Keeps (λ s. s.generators) (add_batch repo pool now n numbers) _
                    (add_batch-Keeps n numbers) (λ v t. refl)))
            s)

-- The generators of the lengths from `i` on, for a number of them, over those that were there.
abbrev pub made : ℕ → ℕ → ℕ → List (ℕ × Generator) → ℕ → Option Generator
made b rounds i old n =
    if leb i n && ltb n (i + rounds) then some (generator_of n b) else lookup n old

made_step :
    (b rounds i : ℕ) (old : List (ℕ × Generator)) (n : ℕ)
    → made b rounds (i + 1) (insert i (generator_of i b) old) n ≡ made b (suc rounds) i old n
made_step b rounds i old n = elim (Bool-cases (i == n)) [
  | inl own ↦
      let here : i ≡ n = ground (arith, ==_iff i n) in
      let found : lookup n (insert i (generator_of i b) old) ≡ some (generator_of n b) =
        lookup-insert i n (generator_of i b) old
        ∙ rw own (ap (λ k. some (generator_of k b)) here) in
      ground (arith, found, here)
  | inr other ↦ ground (arith, lookup-insert i n (generator_of i b) old, other, ==_iff i n)
]

module _ {R C P T L : Type 0} (repo : ShortLinkRepository R) (pool : ShortCodePool P)
    (sized : (n : ℕ) (p : P) → (k : ℕ) × ((pool.size n p).0 ≡ ok k)) (c : Config) (now : Time)
    (some_size : 0 < c.batch_generate_size) where
  fill_pool-generators :
      (i : ℕ) (g : Generator) (s : State R C P T L)
      → ((fill_pool repo pool now i g s).0 ≡ ok tt)
        × ((fill_pool repo pool now i g s).1.generators ≡ insert i g s.generators)
  unfolding fill_pool
  fill_pool-generators i g s =
      let (k, size) = sized i s.pool in
      elim (Bool-cases (ltb k 100)) [
        | inl few ↦ rw (size, few) (refl, batch_generate-Keeps repo pool now i _)
        | inr many ↦ rw (size, many) (refl, refl)
      ]

  init_pools-generators :
      (rounds i : ℕ) (s : State R C P T L)
      → rounds ≤ 11 - i
      → ((init_pools repo pool c now rounds i s).0 ≡ ok tt)
        × ((n : ℕ)
            → lookup n (init_pools repo pool c now rounds i s).1.generators
              ≡ made c.batch_generate_size rounds i s.generators n)
  unfolding init_pools
  init_pools-generators zero i s fits = (refl, λ n. ground arith)
  init_pools-generators (suc rounds) i s fits =
      let g : Generator = generator_of i c.batch_generate_size in
      let new : new_generator i c.batch_generate_size ≡ ok g =
        new_generator_lem i c.batch_generate_size (omega arith) some_size in
      let (done, kept) = fill_pool-generators i g s in
      let (all_done, rest) =
        init_pools-generators rounds (i + 1) (fill_pool repo pool now i g s).1 (omega arith) in
      (
        rw (new, done) all_done,
        λ n.
            rw (new, done)
              (rest n
                ∙ ap (λ m. made c.batch_generate_size rounds (i + 1) m n) kept
                ∙ made_step c.batch_generate_size rounds i s.generators n),
      )

-- Over any repository, and any pool that answers for its size: with options that leave a batch size
-- from 1 and a largest length of at most ten, NewShortLinkService returns no error, and holds the
-- generator of each length above the largest manual one up to the largest, and no other.
pub new_service-generators :
    {R C P T L : Type 0} (repo : ShortLinkRepository R) (pool : ShortCodePool P)
    (sized : (n : ℕ) (p : P) → (k : ℕ) × ((pool.size n p).0 ≡ ok k)) (opts : List ServiceOption)
    (now : Time) (s : State R C P T L)
    → 0 < (apply_options opts default_config).batch_generate_size
    → (apply_options opts default_config).max_code_length ≤ 10
    → let c = apply_options opts default_config in
      let started = (new_service repo pool opts now s).1 in
      (started.0 ≡ ok tt)
      × ((n : ℕ)
          → lookup n started.1.generators ≡ (
              if ltb c.manual_code_length n && leb n c.max_code_length
              then some (generator_of n c.batch_generate_size)
              else none))
unfolding new_service
new_service-generators repo pool sized opts now s some_size short =
    let c : Config = apply_options opts default_config in
    let (done, generators) =
      init_pools-generators repo pool sized c now some_size
        (c.max_code_length - c.manual_code_length) (c.manual_code_length + 1) (new_state c s)
        (omega arith) in
    (done, λ n. generators n ∙ ground (arith, lookup_nil {V = Generator} n))
