-- ===== src/Sql/Issues.antt =====
-- A batch that `batchGenerate` adds, over the SQL repository: its codes are new.
use vshortlink.Prelude.{
  ok, true, ltb, ltb→lt, Distinct, map, ℕ, some, occurrences, Result-cases, ◌+◌, ◌≤◌, ◌<◌, ◌≡◌,
  refl, sym, ap, subst, ◌∙◌, false, List, Text, ◌==◌, ==_iff, length, if◌then◌else◌, All, arith,
  Bool-cases, inl, inr,
}
use vshortlink.Prelude.Int.{ℤ, add64, pos, pos_part}
use vshortlink.Link.{Time}
use vshortlink.Interfaces.{ShortLinkCache, ShortCodePool}
use vshortlink.Interfaces.Contract.{CacheLaws, PoolLaws}
use vshortlink.Service.State.{Config, State}
use vshortlink.Prelude.Keyed.{lookup, nat_key}
use vshortlink.Gen.Batches.{step_of, generator_of, ladder}
use vshortlink.Service.Generate.{batch_generate}
use vshortlink.Service.Generate.Lawful.{
  batch_index, batch_codes, codes_of, add_batch-amounts, All-occurs, occurrences-Distinct,
}
use vshortlink.Sql.Starts.{IndexLaws}
use vshortlink.Sql.{Gorm}
use vshortlink.Sql.Repo.{sql_repository}
use vshortlink.Sql.Table.{GormLaws, GormAnswers}
use vshortlink.Sql.Counts.{uses, IsSized}
use vshortlink.Sql.{StartIndexModel}
use vshortlink.Sql.Repo.{get_start_index, save_start_index}
use vshortlink.Gen.Codes.{batch_of}
use vshortlink.Service.State.{minute}
use vshortlink.Service.Generate.Issue.{next_index}
use vshortlink.Service.Generate.Lawful.{batch_generate-run, batch_generate-locked}
use vshortlink.Sql.Owned.{owned, IsUnique, fewer-Issued}

pos_inj : {n m : ℕ} → pos n ≡ pos m → n ≡ m
pos_inj e = ap pos_part e

module _ {D : Type 0} (gorm : Gorm D) (laws : GormLaws gorm) (index : IndexLaws gorm) where
  -- The table after the start index is advanced.
  abbrev advanced : Time → ℕ → ℕ → D → D
  advanced now n i d = (save_start_index gorm now n (add64 (pos i) (pos 1)) d).1

  get_start_index-starts :
      (n i : ℕ) (d : D) → index.starts d n ≡ pos i → get_start_index gorm n d ≡ (ok (pos i), d)
  unfolding get_start_index
  get_start_index-starts n i d at =
      let (ms, finds, shows) = index.find_index_shows n d in
      rw finds (ap (λ z. (ok z, d)) (shows ∙ at))

  advanced-starts :
      (now : Time) (n i b : ℕ) (d : D)
      → 0 < n
      → n ≤ 10
      → i ≤ step_of n b
      → ((save_start_index gorm now n (add64 (pos i) (pos 1)) d).0 ≡ ok tt)
        × (laws.committed (advanced now n i d) ≡ laws.committed d)
        × ((m : ℕ)
            → index.starts (advanced now n i d) m
              ≡ (if n == m then pos (i + 1) else index.starts d m))
  unfolding save_start_index
  advanced-starts now n i b d some_length fits low =
      let m : StartIndexModel = record {
        id = n;
        start_index = add64 (pos i) (pos 1);
        create_time = now;
        modify_time = now;
      } in
      let (done, writes) = index.upsert_index_writes m d some_length in
      (
        done,
        laws.upsert_index_keeps m d,
        λ j.
            writes j ∙ ap (λ z. if n == j then z else index.starts d j) (next_index n b i fits low),
      )

module _ {D C P T L : Type 0} (gorm : Gorm D) (laws : GormLaws gorm) (answers : GormAnswers gorm)
    (index : IndexLaws gorm) (cache : ShortLinkCache C) (cached : CacheLaws cache)
    (pool : ShortCodePool P) (pooled : PoolLaws pool) (c : Config) where
  abbrev Good : State D C P T L → Type 0
  Good = IsUnique gorm laws answers index cache cached pool pooled c

  -- A pool with the same codes.
  issued_none-Good :
      (s : State D C P T L) (p : P)
      → Good s
      → pooled.IsFine p
      → ((m : ℕ) (k : Text) → pooled.amount p m k ≡ pooled.amount s.pool m k)
      → Good (record s { pool = p })
  issued_none-Good s p good fine same_amounts = record {
    cache_fine = good.cache_fine;
    pool_fine = fine;
    sized_rows = good.sized_rows;
    sized_pool = λ n k h. same_amounts n k ∙ good.sized_pool n k h;
    once = λ n k. omega (arith, same_amounts n k, good.once n k);
    issued =
        fewer-Issued gorm laws answers index cache cached pool pooled c s.repo s.repo _ _
          (λ n. refl) (λ n k high. omega (arith, same_amounts n k)) good.issued;
  }

  -- New codes of the next batch in the pool, and the start index advanced.
  issued_codes-Good :
      (s : State D C P T L) (d : D) (p : P) (n i : ℕ) (codes : List Text)
      → Good s
      → c.manual_code_length < n
      → index.starts s.repo n ≡ pos i
      → Distinct codes
      → All (λ k. (batch_index n c.batch_generate_size k ≡ i) × (length k ≡ n)) codes
      → pooled.IsFine p
      → ((m : ℕ) (k : Text)
          → pooled.amount p m k
            ≤ pooled.amount s.pool m k + (if n == m then occurrences k codes else 0))
      → laws.committed d ≡ laws.committed s.repo
      → ((m : ℕ) → index.starts d m ≡ (if n == m then pos (i + 1) else index.starts s.repo m))
      → Good (record s { repo = d; pool = p })
  issued_codes-Good s d p n i codes good high at distinct each fine most same_rows writes =
      let u : State D C P T L = record s { repo = d; pool = p } in
      let at_length : (m : ℕ) → (n == m) ≡ true → n ≡ m =
        λ m own. ground (arith, own, ==_iff n m) in
      let total : (m : ℕ) (k : Text)
          → owned gorm laws answers index cache cached pool pooled c u m k
            ≤ owned gorm laws answers index cache cached pool pooled c s m k
              + (if n == m then occurrences k codes else 0) =
        λ m k. omega (arith, most m k, ap (uses m k) same_rows) in
      let here : (n == n) ≡ true = ground (arith, ==_iff n n) in
      let at_n : (k : Text)
          → owned gorm laws answers index cache cached pool pooled c u n k
            ≤ owned gorm laws answers index cache cached pool pooled c s n k + occurrences k codes =
        λ k. ground (arith, total n k, here) in
      let (j, at', below) = good.issued n high in
      let same_index : j ≡ i = pos_inj (sym at' ∙ at) in
      let from_batch : (k : Text)
          → 0 < occurrences k codes
          → (batch_index n c.batch_generate_size k ≡ i) × (length k ≡ n) =
        λ k.
          All-occurs (λ k. (batch_index n c.batch_generate_size k ≡ i) × (length k ≡ n)) k codes
            each in
      let fresh : (k : Text)
          → 0 < occurrences k codes
          → owned gorm laws answers index cache cached pool pooled c s n k ≡ 0 =
        λ k h.
          let (mine, len) = from_batch k h in
          elim (Bool-cases
            (ltb 0 (owned gorm laws answers index cache cached pool pooled c s n k))) [
              | inl held ↦ absurd (omega (arith, below k (ltb→lt _ _ held), mine, same_index))
              | inr none ↦ ground (arith, none)
            ] in
      let apart : (m : ℕ) (k : Text)
          → (n == m) ≡ false
          → owned gorm laws answers index cache cached pool pooled c u m k
            ≤ owned gorm laws answers index cache cached pool pooled c s m k =
        λ m k other. ground (arith, total m k, other) in
      record {
        cache_fine = good.cache_fine;
        pool_fine = fine;
        sized_rows = subst (All IsSized) (sym same_rows) good.sized_rows;
        sized_pool = λ m k h. elim (Bool-cases (n == m)) [
          | inl own ↦
              let en : n ≡ m = at_length m own in
              let none : occurrences k codes ≡ 0 = elim (Bool-cases (ltb 0 (occurrences k codes))) [
                | inl some_held ↦
                    let (mine, len) = from_batch k (ltb→lt _ _ some_held) in
                    absurd (ground (arith, h, ==_iff (length k) m, len, en))
                | inr none_held ↦ ground (arith, none_held)
              ] in
              ground (arith, most m k, good.sized_pool m k h, none)
          | inr other ↦ ground (arith, most m k, good.sized_pool m k h, other)
        ];
        once = λ m k. elim (Bool-cases (n == m)) [
          | inl own ↦
              subst (λ m. owned gorm laws answers index cache cached pool pooled c u m k ≤ 1)
                (at_length m own)
                (elim (Bool-cases (ltb 0 (occurrences k codes))) [
                  | inl some_held ↦ omega (
                    arith,
                    at_n k,
                    fresh k (ltb→lt _ _ some_held),
                    occurrences-Distinct k codes distinct,
                  )
                  | inr none_held ↦ ground (arith, at_n k, good.once n k, none_held)
                ])
          | inr other ↦ omega (arith, apart m k other, good.once m k)
        ];
        issued = λ m above. elim (Bool-cases (n == m)) [
          | inl own ↦
              subst
                (λ m.
                  (i : ℕ) × (index.starts d m ≡ pos i)
                  × ((k : Text)
                      → 0 < owned gorm laws answers index cache cached pool pooled c u m k
                      → batch_index m c.batch_generate_size k < i))
                (at_length m own)
                (
                  i + 1,
                  writes n ∙ rw here refl,
                  λ k h. elim (Bool-cases (ltb 0 (occurrences k codes))) [
                    | inl some_held ↦
                        let (mine, len) = from_batch k (ltb→lt _ _ some_held) in omega (arith, mine)
                    | inr none_held ↦
                        let before : 0
                            < owned gorm laws answers index cache cached pool pooled c s n k =
                          ground (arith, at_n k, h, none_held) in
                        omega (arith, below k before, same_index)
                  ],
                )
          | inr other ↦
              let (j, starts, below') = good.issued m above in
              (j, writes m ∙ rw other starts, λ k h. below' k (omega (arith, h, apart m k other)))
        ];
      }

  pub generates-Good :
      (now : Time) (n i : ℕ) (s : State D C P T L)
      → Good s
      → c.manual_code_length < n
      → n ≤ 10
      → lookup n s.generators ≡ some (generator_of n c.batch_generate_size)
      → index.starts s.repo n ≡ pos i
      → i < step_of n c.batch_generate_size
      → Good (batch_generate (sql_repository gorm) pool now n s).1
  generates-Good now n i s good high fits has at below =
      let b : ℕ = c.batch_generate_size in
      let zs : List ℤ = map pos (ladder b i (step_of n b)) in
      let codes : List Text = codes_of n zs in
      let (distinct, each) = batch_codes n b i fits below in
      let (lock_fine, same_amounts) = pooled.lock_amount s.pool now n minute good.pool_fine in
      let t : State D C P T L = record s { pool = (pool.lock now n minute s.pool).1 } in
      let (p, run, fine', most) =
        add_batch-amounts (sql_repository gorm) pool pooled now n zs t lock_fine in
      let (unlocked_fine, unlocked) = pooled.unlock_amount p n fine' in
      let (done, same_rows, writes) =
        advanced-starts gorm laws index now n i b s.repo (omega (arith, high)) fits
          (omega (arith, below)) in
      let d : D = advanced gorm laws index now n i s.repo in
      elim (Result-cases (pool.lock now n minute s.pool).0) [
        | inl (u, locked) ↦
            subst (λ x. Good x.1)
              (sym (
                batch_generate-run (sql_repository gorm) pool now n s (pos i) (generator_of n b) zs
                  p d locked (get_start_index-starts gorm laws index n i s.repo at) has
                  (batch_of n b fits i (omega (arith, below))) run (ap (λ r. (r, d)) done)))
              (issued_codes-Good s d (pool.unlock n p) n i codes good high at distinct each
                unlocked_fine (λ m k. omega (arith, unlocked m k, most m k, same_amounts m k))
                same_rows writes)
        | inr (e, failed) ↦
            subst (λ x. Good x.1)
              (sym (batch_generate-locked (sql_repository gorm) pool now n s e failed))
              (issued_none-Good s t.pool good lock_fine same_amounts)
      ]
