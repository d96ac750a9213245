-- ===== src/Service/Generate/Issue.antt =====
-- `batchGenerate` over the memory backends: which codes it adds to the pool, run after run.
use vshortlink.Prelude.{
  ℕ, suc, ◌+◌, ◌^◌, ◌≤◌, ◌<◌, ◌≡◌, refl, ap, sym, subst, ◌∙◌, some, List, [], ◌∷◌, ◌++◌, map,
  map-append, append_assoc, append-nil, ◌==◌, ==_iff, if◌then◌else◌, length, Distinct, ok, err,
  pool_exhausted, arith,
}
use vshortlink.Prelude.Int.{ℤ, pos, add64}
use vshortlink.Prelude.Keyed.{lookup, lookup-insert, nat_key}
use vshortlink.Base62.{to_base62}
use vshortlink.Gen.{generate_batch_numbers}
use vshortlink.Gen.Batches.{step_of, generator_of, ladder, index_fits, generate_batch_numbers_lem}
use vshortlink.Gen.Codes.{batch_of}
use vshortlink.Link.{Time, ShortLink}
use vshortlink.Memory.Pool
use vshortlink.Memory.Pool.{MemoryShortCodePool, memory_pool}
use vshortlink.Memory.Pool.Queue.{queue, queue-lock, queue-unlock}
use vshortlink.Memory.Repo
use vshortlink.Memory.Repo.{MemoryShortLinkRepository, memory_repository}
use vshortlink.Service.State.{minute}
use vshortlink.Service.Generate.{add_batch, generate_locked, batch_generate, numbers_at}
use vshortlink.Service.Rebuild.Loops.{added, queue-added, batches, batch_at}
use vshortlink.Service.Rebuild.Pages.{MemoryState, lock_ok}
use vshortlink.Service.Rebuild.Codes.{batches-Distinct}

pub next_index : (n b k : ℕ) → n ≤ 10 → k ≤ step_of n b → add64 (pos k) (pos 1) ≡ pos (k + 1)
next_index n b k fits h =
    let small : k + 1 < 2 ^ 63 = index_fits n b k fits h in ground (arith, small)

abbrev numbers : ℕ → ℕ → ℕ → List ℤ
numbers n b k = map pos (ladder b k (step_of n b))

batch_at-numbers :
    (n b k : ℕ) → n ≤ 10 → k ≤ step_of n b → batch_at (generator_of n b) k ≡ numbers n b k
unfolding batch_at
batch_at-numbers n b k fits h = rw (batch_of n b fits k h) refl

module _ {C T L : Type 0} (iterate : List (ℕ × ShortLink) → List (ℕ × ShortLink)) (n b : ℕ)
    (fits : n ≤ 10) where
  add_batch-added :
      (now : Time) (zs : List ℤ) (s : MemoryState C T L)
      → add_batch (memory_repository iterate) memory_pool now n zs s
        ≡ (ok tt, record s { pool = added now n zs s.pool })
  unfolding add_batch added Pool.add
  add_batch-added now [] s = refl
  add_batch-added now (z ∷ zs) s =
      add_batch-added now zs (record s { pool = (Pool.add now n (to_base62 z n) s.pool).1 })

  -- The state after a batch of the start index `k`.
  abbrev issued : Time → ℕ → MemoryState C T L → MemoryState C T L
  issued now k s = record s {
    repo = (Repo.save_start_index now n (pos (k + 1)) s.repo).1;
    pool = Pool.unlock n (added now n (numbers n b k) (Pool.lock now n minute s.pool).1);
  }

  numbers_at-generator :
      (k : ℕ) (s : MemoryState C T L)
      → lookup n s.generators ≡ some (generator_of n b)
      → numbers_at n (pos k) s ≡ (generate_batch_numbers (generator_of n b) (pos k), s)
  unfolding numbers_at
  numbers_at-generator k s h = rw (h, numbers_at)

  batch_generate-issued :
      (now : Time) (k : ℕ) (s : MemoryState C T L)
      → lookup n s.generators ≡ some (generator_of n b)
      → Repo.get_start_index n s.repo ≡ (ok (pos k), s.repo)
      → k ≤ step_of n b
      → batch_generate (memory_repository iterate) memory_pool now n s ≡ (ok tt, issued now k s)
  unfolding batch_generate generate_locked Repo.save_start_index
  batch_generate-issued now k s hg hk h =
      let s1 : MemoryState C T L = record s { pool = (Pool.lock now n minute s.pool).1 } in
      rw (
        lock_ok now n minute s.pool,
        hk,
        numbers_at-generator k s1 hg,
        batch_of n b fits k h,
        add_batch-added now (numbers n b k) s1,
        next_index n b k fits h,
      )

  -- With the generator of the length, at most ten, a stored start index above the step is refused:
  -- `batchGenerate` fails, and leaves the codes of every length and the repository as they were.
  batch_generate_exhausted :
      (now : Time) (k : ℕ) (s : MemoryState C T L)
      → lookup n s.generators ≡ some (generator_of n b)
      → Repo.get_start_index n s.repo ≡ (ok (pos k), s.repo)
      → step_of n b < k
      → (s' : MemoryState C T L) × (batch_generate (memory_repository iterate) memory_pool now n s
          ≡ (err pool_exhausted, s'))
        × (s'.repo ≡ s.repo)
        × ((m : ℕ) → queue s'.pool m ≡ queue s.pool m)
  unfolding batch_generate generate_locked
  batch_generate_exhausted now k s hg hk h =
      let locked : MemoryShortCodePool = (Pool.lock now n minute s.pool).1 in
      let s1 : MemoryState C T L = record s { pool = locked } in
      let refused : generate_batch_numbers (generator_of n b) (pos k) ≡ err pool_exhausted =
        generate_batch_numbers_lem n b k fits ∙ ground arith in
      (
        record s { pool = Pool.unlock n locked },
        rw (lock_ok now n minute s.pool, hk, numbers_at-generator k s1 hg, refused),
        refl,
        λ m. queue-unlock locked n m ∙ queue-lock s.pool n m now minute,
      )

  -- The state after a run at each of the instants; the results are logged only.
  pub after_batches : List Time → MemoryState C T L → MemoryState C T L
  after_batches [] s = s
  after_batches (now ∷ times) s =
      after_batches times (batch_generate (memory_repository iterate) memory_pool now n s).1

  queue-issued :
      (now : Time) (k m : ℕ) (s : MemoryState C T L)
      → queue (issued now k s).pool m ≡ (
          if n == m
          then queue s.pool n ++ map (λ z. to_base62 z n) (numbers n b k)
          else queue s.pool m)
  queue-issued now k m s =
      let locked : MemoryShortCodePool = (Pool.lock now n minute s.pool).1 in
      queue-unlock (added now n (numbers n b k) locked) n m
      ∙ queue-added now n m (numbers n b k) locked
      ∙ ground (arith, queue-lock s.pool n n now minute, queue-lock s.pool n m now minute)

  index-issued :
      (now : Time) (k : ℕ) (s : MemoryState C T L)
      → Repo.get_start_index n (issued now k s).repo ≡ (ok (pos (k + 1)), (issued now k s).repo)
  unfolding Repo.get_start_index Repo.save_start_index
  index-issued now k s =
      ground (arith, ==_iff n n, lookup-insert n n (pos (k + 1)) s.repo.start_index)

  after_batches_lem :
      (times : List Time) (k : ℕ) (s : MemoryState C T L)
      → lookup n s.generators ≡ some (generator_of n b)
      → Repo.get_start_index n s.repo ≡ (ok (pos k), s.repo)
      → k + length times ≤ step_of n b + 1
      → (queue (after_batches times s).pool n
          ≡ queue s.pool n
            ++ map (λ z. to_base62 z n) (batches (generator_of n b) (length times) k))
        × (Repo.get_start_index n (after_batches times s).repo
            ≡ (ok (pos (k + length times)), (after_batches times s).repo))
  unfolding after_batches batches
  after_batches_lem [] k s hg hk h =
      (sym (append-nil (queue s.pool n)), hk ∙ ap (λ j. (ok (pos j), s.repo)) (omega arith))
  after_batches_lem (now ∷ times) k s hg hk h =
      let s' : MemoryState C T L = issued now k s in
      let (codes, index) =
        after_batches_lem times (k + 1) s' hg (index-issued now k s) (omega arith) in
      let code = λ (z : ℤ). to_base62 z n in
      let rest = batches (generator_of n b) (length times) (k + 1) in
      let run : after_batches (now ∷ times) s ≡ after_batches times s' =
        ap (λ x. after_batches times x.1) (batch_generate-issued now k s hg hk (omega arith)) in
      (
        ap (λ x. queue x.pool n) run
            ∙ codes
            ∙ ap (λ q. q ++ map code rest) (queue-issued now k n s ∙ ground (arith, ==_iff n n))
            ∙ append_assoc (queue s.pool n) (map code (numbers n b k)) (map code rest)
            ∙ ap (◌++◌ (queue s.pool n)) (sym (map-append code (numbers n b k) rest))
            ∙ ap (λ zs. queue s.pool n ++ map code (zs ++ rest))
                (sym (batch_at-numbers n b k fits (omega arith))),
        subst (λ x. Repo.get_start_index n x.repo ≡ (ok (pos (k + suc (length times))), x.repo))
            (sym run) (index ∙ ap (λ j. (ok (pos j), (after_batches times s').repo)) (omega arith)),
      )

  -- On the memory backends, with the generator of a length of at most ten and an empty pool: after
  -- runs of `batchGenerate` from a stored start index `k`, as long as they end at most at the step,
  -- the pool holds the codes of the batches from `k` on, in their order, each exactly once, and the
  -- stored start index has advanced by the number of runs.
  pub batches_issued_once :
      (times : List Time) (k : ℕ) (s : MemoryState C T L)
      → lookup n s.generators ≡ some (generator_of n b)
      → Repo.get_start_index n s.repo ≡ (ok (pos k), s.repo)
      → queue s.pool n ≡ []
      → k + length times ≤ step_of n b
      → (queue (after_batches times s).pool n
          ≡ map (λ z. to_base62 z n) (batches (generator_of n b) (length times) k))
        × Distinct (queue (after_batches times s).pool n)
        × ((Repo.get_start_index n (after_batches times s).repo).0 ≡ ok (pos (k + length times)))
  batches_issued_once times k s hg hk empty h =
      let (codes, index) = after_batches_lem times k s hg hk (omega arith) in
      let codes' =
        codes
        ∙ ap (λ q. q ++ map (λ z. to_base62 z n) (batches (generator_of n b) (length times) k))
            empty in
      (codes', rw codes' (batches-Distinct n b fits (length times) k h), ap (λ x. x.0) index)
