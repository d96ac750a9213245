-- ===== src/Sql/Unique.antt =====
-- The service over the SQL repository, a cache and a pool that keep their contracts, as a system of
-- steps: in each state that it comes to, a code is in use once or in the pool once, never both.
use vshortlink.Prelude.{
  ℕ, some, ◌+◌, ◌≤◌, ◌<◌, ◌≡◌, refl, subst, ◌&&◌, Text, same, same_iff, ◌==◌, ==_iff, length, keep,
  arith, Bool-cases, inl, inr,
}
use vshortlink.Prelude.Int.{pos}
use vshortlink.Link.{Time}
use vshortlink.Interfaces.{ShortLinkCache, ShortCodePool}
use vshortlink.Interfaces.Contract.{CacheLaws, PoolLaws}
use vshortlink.Service.State.{Config, State}
use vshortlink.Service.Edit.{create, add, update, remove}
use vshortlink.Service.Expire.{expire_actives, recycle_expires}
use vshortlink.Prelude.Keyed.{lookup, nat_key}
use vshortlink.Gen.Batches.{step_of, generator_of}
use vshortlink.Service.Generate.{batch_generate}
use vshortlink.Sql.Starts.{IndexLaws, update-starts, remove-starts, expire_actives-starts}
use vshortlink.Sql.{Gorm}
use vshortlink.Sql.Repo.{sql_repository}
use vshortlink.Sql.Table.{GormLaws, GormAnswers}
use vshortlink.Sql.Quiet.{remove-IsQuiet, expire_actives-IsQuiet, update-IsQuiet}
use vshortlink.Sql.Due.{is_due}
use vshortlink.Sql.Expire.{expiring}
use vshortlink.Sql.Recycle.{year_old}
use vshortlink.Sql.Owned.{owned, IsUnique, fewer-Issued, quiet-Good}
use vshortlink.Sql.Issues.{generates-Good}
use vshortlink.Sql.Taken.{recycles-Good, add-Good, creates-Good}

module _ {D C P : Type 0} (gorm : Gorm D) (laws : GormLaws gorm) (answers : GormAnswers gorm)
    (index : IndexLaws gorm) (cache : ShortLinkCache C) (cached : CacheLaws cache)
    (pool : ShortCodePool P) (pooled : PoolLaws pool) (c : Config) where
  -- The calls, and what they are given.
  pub data Step {T L : Type 0} (s : State D C P T L) : State D C P T L → Type 0 where
    creates :
        (now : Time) (title link : Text) (n : ℕ) (expire : Time) (z : Text)
        → 0 < n
        → n ≤ c.max_code_length
        → cached.Takes link expire
        → 0 < pooled.amount s.pool n z
        → Step s (create (sql_repository gorm) cache pool c now title link (pos n) expire s).1
    adds :
        (now : Time) (code title link : Text) (expire : Time)
        → cached.Takes link expire
        → length code ≤ c.manual_code_length
        → owned gorm laws answers index cache cached pool pooled c s (length code) code ≡ 0
        → Step s (add (sql_repository gorm) cache pool now code title link expire s).1
    updates :
        (now : Time) (code title link : Text) (expire : Time)
        → cached.Takes link expire
        → Step s (update (sql_repository gorm) cache pool now code title link expire s).1
    removes : (code : Text) → Step s (remove (sql_repository gorm) cache pool code s).1
    expires :
        (fuel : ℕ) (now : Time)
        → length (keep (is_due (expiring now)) (laws.committed s.repo)) < fuel
        → Step s (expire_actives (sql_repository gorm) cache pool fuel now s).1
    recycles :
        (fuel : ℕ) (now : Time)
        → length (keep (is_due (year_old now)) (laws.committed s.repo)) < fuel
        → Step s (recycle_expires (sql_repository gorm) cache pool fuel now s).1
    generates :
        (now : Time) (n i : ℕ)
        → c.manual_code_length < n
        → n ≤ 10
        → lookup n s.generators ≡ some (generator_of n c.batch_generate_size)
        → index.starts s.repo n ≡ pos i
        → i < step_of n c.batch_generate_size
        → Step s (batch_generate (sql_repository gorm) pool now n s).1

  pub data Reach {T L : Type 0} (s : State D C P T L) : State D C P T L → Type 0 where
    here : Reach s s
    next : {t u : State D C P T L} → Reach s t → Step t u → Reach s u

module _ {D C P T L : Type 0} (gorm : Gorm D) (laws : GormLaws gorm) (answers : GormAnswers gorm)
    (index : IndexLaws gorm) (cache : ShortLinkCache C) (cached : CacheLaws cache)
    (pool : ShortCodePool P) (pooled : PoolLaws pool) (c : Config) where
  abbrev Good : State D C P T L → Type 0
  Good = IsUnique gorm laws answers index cache cached pool pooled c

  Step-Good :
      {s t : State D C P T L}
      → Step gorm laws answers index cache cached pool pooled c s t
      → Good s
      → Good t
  Step-Good {s} (creates now title link n expire z low high takes held) good =
      creates-Good gorm laws answers index cache cached pool pooled c now title link n expire z s
        good low high takes held
  Step-Good {s} (adds now code title link expire takes low free) good =
      add-Good gorm laws answers index cache cached pool pooled c now code title link expire s takes
        good.cache_fine good.pool_fine good.sized_rows good.sized_pool
        (λ n k. elim (Bool-cases ((length code == n) && same code k)) [
          | inl own ↦
              let ek : code ≡ k = ground (arith, own, same_iff code k) in
              let en : length code ≡ n = ground (arith, own, ==_iff (length code) n) in
              rw own (
                subst (λ j. owned gorm laws answers index cache cached pool pooled c s n j + 1 ≤ 1)
                  ek
                  (subst
                    (λ i. owned gorm laws answers index cache cached pool pooled c s i code + 1 ≤ 1)
                    en (omega (arith, free))))
          | inr other ↦ rw other (omega (arith, good.once n k))
        ])
        (fewer-Issued gorm laws answers index cache cached pool pooled c s.repo s.repo _ _
          (λ n. refl) (λ n k high. ground (arith, ==_iff (length code) n, low, high)) good.issued)
  Step-Good {s} (updates now code title link expire takes) good =
      quiet-Good gorm laws answers index cache cached pool pooled c s _ good
        (update-IsQuiet gorm laws cache cached pool now code title link expire s good.cache_fine
          takes good.sized_rows)
        (λ n. update-starts gorm laws index cache pool n now code title link expire s)
  Step-Good {s} (removes code) good =
      quiet-Good gorm laws answers index cache cached pool pooled c s _ good
        (remove-IsQuiet gorm laws cache cached pool code s good.cache_fine good.sized_rows)
        (λ n. remove-starts gorm laws index cache pool n code s)
  Step-Good {s} (expires fuel now enough) good =
      quiet-Good gorm laws answers index cache cached pool pooled c s _ good
        (expire_actives-IsQuiet gorm laws cache cached pool answers fuel now s good.cache_fine
          good.sized_rows enough)
        (λ n. expire_actives-starts gorm laws index cache pool n fuel now s)
  Step-Good {s} (recycles fuel now enough) good =
      recycles-Good gorm laws answers index cache cached pool pooled c fuel now s good enough
  Step-Good {s} (generates now n i high fits has at below) good =
      generates-Good gorm laws answers index cache cached pool pooled c now n i s good high fits has
        at below

  -- Over GORM tables whose calls do not fail, and a cache and a pool that keep their contracts: in a
  -- state that `Create`, `Add`, `Update`, `Remove`, `ExpireActives`, `RecycleExpires` and
  -- `batchGenerate` lead to, in any order and number, from one in which each code is either in use by
  -- one link, or in the pool once, or neither, and no code is there whose batch is still to be issued,
  -- this is so again, and the rows and the pool keep each code under its own length. `Create` finds a
  -- code of its length in the pool; `Add` is given a code of a manual length that is neither pooled nor
  -- in use; `batchGenerate` has the generator of a length of at most ten and a start index below the
  -- step.
  pub Reach-IsUnique :
      (s t : State D C P T L)
      → IsUnique gorm laws answers index cache cached pool pooled c s
      → Reach gorm laws answers index cache cached pool pooled c s t
      → IsUnique gorm laws answers index cache cached pool pooled c t
  Reach-IsUnique s t good here = good
  Reach-IsUnique s t good (next path step) = Step-Good step (Reach-IsUnique s _ good path)
