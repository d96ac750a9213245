-- ===== src/Sql/Taken.antt =====
-- The codes that `Create` and `Add` take into use, and that `RecycleExpires` gives back.
use vshortlink.Prelude.{
  ℕ, ◌+◌, ◌≤◌, ◌<◌, ◌≡◌, refl, sym, ap, subst, ◌∙◌, false, ◌&&◌, List, [], ◌∷◌, Text, same,
  same_refl, ◌==◌, ==_iff, length, if◌then◌else◌, keep, All, All-append, arith, Bool-cases, inl,
  inr,
}
use vshortlink.Prelude.Int.{pos}
use vshortlink.Link.{Time}
use vshortlink.Interfaces.{ShortLinkCache, ShortCodePool}
use vshortlink.Interfaces.Contract.{CacheLaws, PoolLaws}
use vshortlink.Service.State.{Config, State}
use vshortlink.Service.Edit.{create, add}
use vshortlink.Service.Edit.Memory.{new_link}
use vshortlink.Service.Edit.Lawful.{pull_some, after_pull, create_pulled}
use vshortlink.Service.Expire.{recycle_expires}
use vshortlink.Prelude.Keyed.{nat_key}
use vshortlink.Sql.Starts.{IndexLaws, add-starts, recycle_expires-starts}
use vshortlink.Sql.{ShortLinkModel, Gorm}
use vshortlink.Sql.Repo.{sql_repository}
use vshortlink.Sql.Table.{GormLaws, GormAnswers}
use vshortlink.Sql.Counts.{count-append, of_code, in_use, uses, IsSized}
use vshortlink.Sql.Uses.{uses-recycling}
use vshortlink.Sql.Manual.{add_row, new_row}
use vshortlink.Sql.Quiet.{sized-marked, All-keep}
use vshortlink.Sql.Due.{is_due}
use vshortlink.Sql.Recycle.{year_old, recycle_expires_effect}
use vshortlink.Sql.Owned.{owned, Issued, IsUnique, other_length, fewer-Issued}

module _ {D C P T L : Type 0} (gorm : Gorm D) (laws : GormLaws gorm) (answers : GormAnswers gorm)
    (index : IndexLaws gorm) (cache : ShortLinkCache C) (cached : CacheLaws cache)
    (pool : ShortCodePool P) (pooled : PoolLaws pool) (c : Config) where
  abbrev Good : State D C P T L → Type 0
  Good = IsUnique gorm laws answers index cache cached pool pooled c

  pub recycles-Good :
      (fuel : ℕ) (now : Time) (s : State D C P T L)
      → Good s
      → length (keep (is_due (year_old now)) (laws.committed s.repo)) < fuel
      → Good (recycle_expires (sql_repository gorm) cache pool fuel now s).1
  recycles-Good fuel now s good enough =
      let rows : List ShortLinkModel = laws.committed s.repo in
      let (s', run, shows, holds, keeps, most, fine', same_cache) =
        recycle_expires_effect gorm laws answers cache pool pooled now fuel s good.pool_fine
          enough in
      let fewer : (n : ℕ) (k : Text)
          → owned gorm laws answers index cache cached pool pooled c s' n k
            ≤ owned gorm laws answers index cache cached pool pooled c s n k =
        λ n k. omega (
          arith,
          most n k,
          ap (uses n k) shows,
          uses-recycling n k (year_old now).before now rows,
        ) in
      subst (λ x. Good x.1) (sym run)
        (record {
          cache_fine = subst cached.IsFine (sym same_cache) good.cache_fine;
          pool_fine = fine';
          sized_rows =
              subst (All IsSized) (sym shows) (sized-marked (year_old now) rows good.sized_rows);
          sized_pool = λ n k h. omega (
            arith,
            most n k,
            good.sized_pool n k h,
            other_length n k (keep (is_due (year_old now)) rows) h
                (All-keep IsSized (is_due (year_old now)) rows good.sized_rows),
          );
          once = λ n k. omega (arith, fewer n k, good.once n k);
          issued =
              fewer-Issued gorm laws answers index cache cached pool pooled c s.repo s'.repo _ _
                (λ n.
                  ap (λ x. index.starts x.1.repo n) (sym run)
                  ∙ recycle_expires-starts gorm laws index cache pool n fuel now s)
                (λ n k high. fewer n k) good.issued;
        })

  -- `Add` of a code that is left nowhere.
  pub add-Good :
      (now : Time) (code title link : Text) (expire : Time) (t : State D C P T L)
      → cached.Takes link expire
      → cached.IsFine t.cache
      → pooled.IsFine t.pool
      → All IsSized (laws.committed t.repo)
      → ((n : ℕ) (k : Text) → (length k == n) ≡ false → pooled.amount t.pool n k ≡ 0)
      → ((n : ℕ) (k : Text)
          → owned gorm laws answers index cache cached pool pooled c t n k
              + (if (length code == n) && same code k then 1 else 0)
            ≤ 1)
      → Issued gorm laws answers index cache cached pool pooled c t.repo (λ n k.
        owned gorm laws answers index cache cached pool pooled c t n k
        + (if (length code == n) && same code k then 1 else 0))
      → Good (add (sql_repository gorm) cache pool now code title link expire t).1
  add-Good now code title link expire t takes fine pool_fine sized sized_pool room issued =
      let (id, s', run, written, fine', same_pool) =
        add_row gorm laws answers cache cached pool now code title link expire t fine takes in
      let row : ShortLinkModel = new_row now id (new_link id code title link expire) in
      let same_owned : (n : ℕ) (k : Text)
          → owned gorm laws answers index cache cached pool pooled c s' n k
            ≡ owned gorm laws answers index cache cached pool pooled c t n k
              + (if (length code == n) && same code k then 1 else 0) =
        λ n k. omega (
          arith,
          ap (λ p. pooled.amount p n k) same_pool,
          ap (uses n k) written,
          count-append (λ m. in_use m && of_code n k m) (laws.committed t.repo) (row ∷ []),
        ) in
      subst (λ x. Good x.1) (sym run)
        (record {
          cache_fine = fine';
          pool_fine = subst pooled.IsFine (sym same_pool) pool_fine;
          sized_rows =
              subst (All IsSized) (sym written)
                (All-append IsSized (laws.committed t.repo) (row ∷ []) sized (refl, tt));
          sized_pool = λ n k h. ap (λ p. pooled.amount p n k) same_pool ∙ sized_pool n k h;
          once = λ n k. omega (arith, same_owned n k, room n k);
          issued =
              fewer-Issued gorm laws answers index cache cached pool pooled c t.repo s'.repo _ _
                (λ n.
                  ap (λ x. index.starts x.1.repo n) (sym run)
                  ∙ add-starts gorm laws index cache pool n now code title link expire t)
                (λ n k high. omega (arith, same_owned n k)) issued;
        })

  pub creates-Good :
      (now : Time) (title link : Text) (n : ℕ) (expire : Time) (z : Text) (s : State D C P T L)
      → Good s
      → 0 < n
      → n ≤ c.max_code_length
      → cached.Takes link expire
      → 0 < pooled.amount s.pool n z
      → Good (create (sql_repository gorm) cache pool c now title link (pos n) expire s).1
  creates-Good now title link n expire z s good low high takes held =
      let (code, enough, gives, fine', taken) = pull_some pooled n s.pool z good.pool_fine held in
      let own_length : length code ≡ n = elim (Bool-cases (length code == n)) [
        | inl own ↦ ground (arith, ==_iff (length code) n, own)
        | inr other ↦
            absurd (
              ground
                (arith, taken n code, good.sized_pool n code other, same_refl code, ==_iff n n))
      ] in
      let taken' : (m : ℕ) (w : Text)
          → pooled.amount s.pool m w
            ≡ pooled.amount (pool.pull n s.pool).1 m w
              + (if (length code == m) && same code w then 1 else 0) =
        subst
          (λ i.
            (m : ℕ) (w : Text)
            → pooled.amount s.pool m w
              ≡ pooled.amount (pool.pull n s.pool).1 m w
                + (if (i == m) && same code w then 1 else 0))
          (sym own_length) taken in
      let sized : (m : ℕ) (k : Text)
          → (length k == m) ≡ false
          → pooled.amount (pool.pull n s.pool).1 m k ≡ 0 =
        λ m k h. omega (arith, taken' m k, good.sized_pool m k h) in
      let room : (m : ℕ) (k : Text)
          → pooled.amount (pool.pull n s.pool).1 m k
              + uses m k (laws.committed s.repo)
              + (if (length code == m) && same code k then 1 else 0)
            ≤ 1 =
        λ m k. omega (arith, taken' m k, good.once m k) in
      subst (λ x. Good x.1)
        (sym (
          create_pulled (sql_repository gorm) cache pool c n low high now title link expire s code
            enough gives))
        (add-Good now code title link expire (after_pull pool n enough s) takes good.cache_fine
          fine' good.sized_rows sized room
          (fewer-Issued gorm laws answers index cache cached pool pooled c s.repo s.repo _ _
            (λ m. refl) (λ m k above. omega (arith, taken' m k)) good.issued))
