-- ===== src/Sql/Owned.antt =====
-- The codes of the service over the SQL repository: each is in the pool once, or in use by one link,
-- or neither, and no code is pooled or used of a batch that is still to be issued.
use vshortlink.Prelude.{
  ℕ, ◌+◌, ◌≤◌, ◌<◌, ◌≡◌, refl, sym, ap, subst, ◌∙◌, false, List, [], ◌∷◌, Text, same_iff, ◌==◌,
  ==_iff, length, All, arith, Bool-cases, inl, inr,
}
use vshortlink.Prelude.Int.{pos}
use vshortlink.Interfaces.{ShortLinkCache, ShortCodePool}
use vshortlink.Interfaces.Contract.{CacheLaws, PoolLaws}
use vshortlink.Service.State.{Config, State}
use vshortlink.Prelude.Keyed.{nat_key}
use vshortlink.Service.Generate.Lawful.{batch_index}
use vshortlink.Sql.Starts.{IndexLaws}
use vshortlink.Sql.{ShortLinkModel, Gorm}
use vshortlink.Sql.Table.{GormLaws, GormAnswers}
use vshortlink.Sql.Counts.{count, of_code, uses, IsSized}
use vshortlink.Sql.Quiet.{IsQuiet}

module _ {D C P : Type 0} (gorm : Gorm D) (laws : GormLaws gorm) (answers : GormAnswers gorm)
    (index : IndexLaws gorm) (cache : ShortLinkCache C) (cached : CacheLaws cache)
    (pool : ShortCodePool P) (pooled : PoolLaws pool) (c : Config) where
  -- How often a code is in the pool of a length, and in use by a link of it.
  abbrev pub owned : {T L : Type 0} → State D C P T L → ℕ → Text → ℕ
  owned s n k = pooled.amount s.pool n k + uses n k (laws.committed s.repo)

  -- The codes that are counted, of a length that has a generator, are of batches that were issued:
  -- their start indices are below the stored one.
  abbrev pub Issued : D → (ℕ → Text → ℕ) → Type 0
  Issued d counted =
      (n : ℕ)
      → c.manual_code_length < n
      → (i : ℕ) × (index.starts d n ≡ pos i)
        × ((k : Text) → 0 < counted n k → batch_index n c.batch_generate_size k < i)

  pub record IsUnique {T L : Type 0} (s : State D C P T L) : Type 0 where
    pub cache_fine : cached.IsFine s.cache
    pub pool_fine : pooled.IsFine s.pool
    pub sized_rows : All IsSized (laws.committed s.repo)
    pub sized_pool : (n : ℕ) (k : Text) → (length k == n) ≡ false → pooled.amount s.pool n k ≡ 0
    pub once : (n : ℕ) (k : Text) → owned s n k ≤ 1
    pub issued : Issued s.repo (owned s)

  -- Fewer codes, with the start indices as they were.
  pub fewer-Issued :
      (d d' : D) (counted counted' : ℕ → Text → ℕ)
      → ((n : ℕ) → index.starts d' n ≡ index.starts d n)
      → ((n : ℕ) (k : Text) → c.manual_code_length < n → counted' n k ≤ counted n k)
      → Issued d counted
      → Issued d' counted'
  fewer-Issued d d' counted counted' same_starts fewer issued n high =
      let (i, at, below) = issued n high in
      (i, same_starts n ∙ at, λ k h. below k (omega (arith, h, fewer n k high)))

-- No row has a code of another length than its own.
pub other_length :
    (n : ℕ) (k : Text) (ms : List ShortLinkModel)
    → (length k == n) ≡ false
    → All IsSized ms
    → count (of_code n k) ms ≡ 0
other_length n k [] h sized = refl
other_length n k (m ∷ ms) h sized = elim (Bool-cases (of_code n k m)) [
  | inl own ↦
      let ek : m.code ≡ k = ground (arith, own, same_iff m.code k) in
      let en : m.length ≡ n = ground (arith, own, ==_iff m.length n) in
      absurd (ground (arith, h, ==_iff (length k) n, ap length ek, en, sized.0))
  | inr other ↦ rw other (omega (arith, other_length n k ms h sized.1))
]

module _ {D C P T L : Type 0} (gorm : Gorm D) (laws : GormLaws gorm) (answers : GormAnswers gorm)
    (index : IndexLaws gorm) (cache : ShortLinkCache C) (cached : CacheLaws cache)
    (pool : ShortCodePool P) (pooled : PoolLaws pool) (c : Config) where
  abbrev Good : State D C P T L → Type 0
  Good = IsUnique gorm laws answers index cache cached pool pooled c

  -- A state with the same pool, and no more uses.
  pub quiet-Good :
      (s s' : State D C P T L)
      → Good s
      → IsQuiet gorm laws cache cached pool s s'
      → ((n : ℕ) → index.starts s'.repo n ≡ index.starts s.repo n)
      → Good s'
  quiet-Good s s' good quiet same_starts =
      let fewer : (n : ℕ) (k : Text)
          → owned gorm laws answers index cache cached pool pooled c s' n k
            ≤ owned gorm laws answers index cache cached pool pooled c s n k =
        λ n k. omega (arith, ap (λ p. pooled.amount p n k) quiet.same_pool, quiet.fewer n k) in
      record {
        cache_fine = quiet.fine;
        pool_fine = subst pooled.IsFine (sym quiet.same_pool) good.pool_fine;
        sized_rows = quiet.sized;
        sized_pool = λ n k h. ap (λ p. pooled.amount p n k) quiet.same_pool ∙ good.sized_pool n k h;
        once = λ n k. omega (arith, fewer n k, good.once n k);
        issued =
            fewer-Issued gorm laws answers index cache cached pool pooled c s.repo s'.repo _ _
              same_starts (λ n k high. fewer n k) good.issued;
      }
