-- ===== src/Service/Edit/Lawful.antt =====
-- `Create` over any pool and any cache that keep their contracts.
use vshortlink.Prelude.{
  ◌==◌, ◌&&◌, ℕ, ◌+◌, ◌≤◌, ◌<◌, ◌≡◌, refl, Bool, false, ◌||◌, [], ◌∷◌, ◌++◌, Text, same,
  if◌then◌else◌, ok, arith, Bool-cases, inl, inr,
}
use vshortlink.Prelude.Int.{pos, ltb_ℤ}
use vshortlink.Link.{Time, ShortLink}
use vshortlink.Interfaces.{ShortLinkRepository, ShortLinkCache, ShortCodePool}
use vshortlink.Interfaces.Contract.{PoolLaws}
use vshortlink.Service.State.{Config, State}
use vshortlink.Service.Edit.{add, create}

-- A repository that stores every link, and gives it back with its code.
abbrev pub IsStoring : {R : Type 0} → ShortLinkRepository R → Type 0
IsStoring {R} repo =
    (now : Time) (l : ShortLink) (r : R)
    → (l' : ShortLink) × (r' : R) × (repo.create now l r ≡ (ok l', r')) × (l'.code ≡ l.code)

-- A pull from a pool that holds a code of the length takes one of some code.
pub pull_some :
    {P : Type 0} {pool : ShortCodePool P} (pooled : PoolLaws pool) (n : ℕ) (p : P) (z : Text)
    → pooled.IsFine p
    → 0 < pooled.amount p n z
    → (code : Text) × (enough : Bool) × ((pool.pull n p).0 ≡ ok (code, enough))
      × pooled.IsFine (pool.pull n p).1
      × ((m : ℕ) (w : Text)
          → pooled.amount p m w
            ≡ pooled.amount (pool.pull n p).1 m w + (if (n == m) && same code w then 1 else 0))
pull_some {pool = pool} pooled n p z fine held =
    let (fine', taken) = pooled.pull_amount p n fine in
    elim taken [
      | inl (none_left, amounts) ↦ let (empty, keeps) = amounts n z in absurd (omega arith)
      | inr (code, enough, gives, amounts) ↦ (code, enough, gives, fine', amounts)
    ]

-- The state after a pull, with a batch started unless enough codes are left.
abbrev pub after_pull :
    {R C P T L : Type 0} → ShortCodePool P → ℕ → Bool → State R C P T L → State R C P T L
after_pull pool n enough s = record s {
  pool = (pool.pull n s.pool).1;
  spawned = if enough then s.spawned else s.spawned ++ n ∷ [];
}

-- `Create` of a code that the pool gives is `Add` of it.
pub create_pulled :
    {R C P T L : Type 0} (repo : ShortLinkRepository R) (cache : ShortLinkCache C)
    (pool : ShortCodePool P) (c : Config) (n : ℕ)
    → 0 < n
    → n ≤ c.max_code_length
    → (now : Time) (title link : Text) (expire : Time) (s : State R C P T L) (code : Text)
      (enough : Bool)
    → (pool.pull n s.pool).0 ≡ ok (code, enough)
    → create repo cache pool c now title link (pos n) expire s
      ≡ add repo cache pool now code title link expire (after_pull pool n enough s)
unfolding create
create_pulled repo cache pool c n low high now title link expire s code enough pulled =
    let valid : (ltb_ℤ (pos n) (pos 1) || ltb_ℤ (pos c.max_code_length) (pos n)) ≡ false =
      ground arith in
    elim (Bool-cases enough) [
      | inl more ↦ rw (valid, pulled, more) refl
      | inr few ↦ rw (valid, pulled, few) refl
    ]
