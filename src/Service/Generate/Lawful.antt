-- ===== src/Service/Generate/Lawful.antt =====
-- A batch over any pool that keeps its contract.
use native.Mathlib.Nat.{mod-eq_of_lt, one-le-pow}
use vshortlink.Prelude.{
  ℕ, ◌+◌, ◌%◌, ◌^◌, ◌≤◌, ◌<◌, ◌≡◌, ◌≢◌, refl, ap, subst, ◌∙◌, ◌&&◌, none, some, List, [], ◌∷◌, map,
  Text, same, same_iff, ◌==◌, ==_iff, if◌then◌else◌, length, occurrences, All, All-map, All-imp,
  Distinct, ok, err, Error, arith, Bool-cases, inl, inr,
}
use vshortlink.Prelude.Int.{ℤ, pos, add64}
use vshortlink.Base62.{to_base62}
use vshortlink.Base62.RoundTrip.{length-to_base62, place_value, place_value-to_base62}
use vshortlink.Gen.Batches.{step_of, ladder, All-ladder, steps_fit}
use vshortlink.Gen.Codes.{Distinct-ladder, Distinct-codes}
use vshortlink.Link.{Time}
use vshortlink.Interfaces.{ShortLinkRepository, ShortCodePool}
use vshortlink.Interfaces.Contract.{PoolLaws}
use vshortlink.Service.State.{State, minute}
use vshortlink.Service.Generate.{add_batch, numbers_at, generate_locked, batch_generate}
use vshortlink.Gen.{Generator, generate_batch_numbers}
use vshortlink.Prelude.Keyed.{lookup, nat_key}

abbrev pub codes_of : ℕ → List ℤ → List Text
codes_of n zs = map (λ z. to_base62 z n) zs

module _ {R C P T L : Type 0} (repo : ShortLinkRepository R) (pool : ShortCodePool P)
    (pooled : PoolLaws pool) (now : Time) (n : ℕ) where
  -- Each code of a batch is added at most once more.
  pub add_batch-amounts :
      (zs : List ℤ) (s : State R C P T L)
      → pooled.IsFine s.pool
      → (p : P) × (add_batch repo pool now n zs s ≡ (ok tt, record s { pool = p }))
        × pooled.IsFine p
        × ((m : ℕ) (k : Text)
            → pooled.amount p m k
              ≤ pooled.amount s.pool m k + (if n == m then occurrences k (codes_of n zs) else 0))
  unfolding add_batch
  add_batch-amounts [] s fine = (s.pool, refl, fine, λ m k. omega arith)
  add_batch-amounts (z ∷ zs) s fine =
      let code : Text = to_base62 z n in
      let (done, fine', held, bound, others) = pooled.add_amount s.pool now n code fine in
      let p : P = (pool.add now n code s.pool).1 in
      let (p', run, fine'', most) = add_batch-amounts zs (record s { pool = p }) fine' in
      (
        p',
        rw done run,
        fine'',
        λ m k. elim (Bool-cases ((n == m) && same code k)) [
          | inl own ↦
              let en : n ≡ m = ground (arith, own, ==_iff n m) in
              let ek : code ≡ k = ground (arith, own, same_iff code k) in
              let one : pooled.amount p m k ≤ pooled.amount s.pool m k + 1 =
                subst (λ j. pooled.amount p m j ≤ pooled.amount s.pool m j + 1) ek
                  (subst (λ i. pooled.amount p i code ≤ pooled.amount s.pool i code + 1) en
                    bound) in
              ground (arith, one, most m k, own)
          | inr other ↦ ground (arith, others m k other, most m k, other)
        ],
      )

module _ {R C P T L : Type 0} where
  -- The numbers of a generator that is held.
  pub numbers_at-made :
      (n : ℕ) (i : ℤ) (s : State R C P T L) (g : Generator)
      → lookup n s.generators ≡ some g
      → numbers_at n i s ≡ (generate_batch_numbers g i, s)
  unfolding numbers_at
  numbers_at-made n i s g h = rw (h, numbers_at) refl

-- A run under the lock, and one that does not get it.
module _ {R C P T L : Type 0} (repo : ShortLinkRepository R) (pool : ShortCodePool P) (now : Time)
    (n : ℕ) (s : State R C P T L) where
  pub batch_generate-run :
      (z : ℤ) (g : Generator) (zs : List ℤ) (p : P) (r : R)
      → (pool.lock now n minute s.pool).0 ≡ ok tt
      → repo.get_start_index n s.repo ≡ (ok z, s.repo)
      → lookup n s.generators ≡ some g
      → generate_batch_numbers g z ≡ ok zs
      → add_batch repo pool now n zs (record s { pool = (pool.lock now n minute s.pool).1 })
        ≡ (ok tt, record s { pool = p })
      → repo.save_start_index now n (add64 z (pos 1)) s.repo ≡ (ok tt, r)
      → batch_generate repo pool now n s ≡ (ok tt, record s { repo = r; pool = pool.unlock n p })
  unfolding batch_generate generate_locked
  batch_generate-run z g zs p r locked starts has numbers adds saves =
      let t : State R C P T L = record s { pool = (pool.lock now n minute s.pool).1 } in
      rw (locked, starts, numbers_at-made n z t g has, numbers, adds, saves) refl

  pub batch_generate-locked :
      (e : Error)
      → (pool.lock now n minute s.pool).0 ≡ err e
      → batch_generate repo pool now n s
        ≡ (err e, record s { pool = (pool.lock now n minute s.pool).1 })
  unfolding batch_generate
  batch_generate-locked e failed = rw failed refl

-- What holds of all texts holds of one that occurs.
pub All-occurs :
    (Q : Text → Type 0) (k : Text) (ks : List Text) → All Q ks → 0 < occurrences k ks → Q k
All-occurs Q k [] all h = absurd (omega (arith, h))
All-occurs Q k (c ∷ cs) all h = elim (Bool-cases (same c k)) [
  | inl own ↦ subst Q (ground (arith, own, same_iff c k)) all.0
  | inr other ↦ All-occurs Q k cs all.1 (ground (arith, h, other))
]

never_occurs : (k : Text) (ks : List Text) → All (λ c. c ≢ k) ks → occurrences k ks ≡ 0
never_occurs k [] h = refl
never_occurs k (c ∷ cs) h = ground (arith, never_occurs k cs h.1, h.0, same_iff c k)

pub occurrences-Distinct : (k : Text) (ks : List Text) → Distinct ks → occurrences k ks ≤ 1
occurrences-Distinct k [] d = omega arith
occurrences-Distinct k (c ∷ cs) d = elim (Bool-cases (same c k)) [
  | inl own ↦
      let ek : c ≡ k = ground (arith, own, same_iff c k) in
      rw own (omega (arith, never_occurs k cs (subst (λ j. All (λ a. a ≢ j) cs) ek d.0)))
  | inr other ↦ ground (arith, other, occurrences-Distinct k cs d.1)
]

-- The start index of the batch that has a code.
abbrev pub batch_index : ℕ → ℕ → Text → ℕ
batch_index n b k = elim (place_value 0 k) [ none ↦ 0 | some x ↦ x ] % step_of n b

-- The codes of the batch of a start index below the step.
pub batch_codes :
    (n b i : ℕ)
    → n ≤ 10
    → i < step_of n b
    → let codes = codes_of n (map pos (ladder b i (step_of n b))) in
      Distinct codes × All (λ k. (batch_index n b k ≡ i) × (length k ≡ n)) codes
batch_codes n b i fits below = (
  Distinct-codes n b fits (ladder b i (step_of n b))
      (Distinct-ladder b i (step_of n b) (omega arith)),
  All-map _ (λ z. to_base62 z n) (map pos (ladder b i (step_of n b)))
      (All-map _ pos (ladder b i (step_of n b)) (
        All-imp _ _
          (λ x h. (
            ap (λ o. elim o [ none ↦ 0 | some x ↦ x ] % step_of n b) (place_value-to_base62 x n)
                ∙ h.2,
            length-to_base62 x n h.1,
          ))
          (ladder b i (step_of n b))
          (All-ladder b i (step_of n b) 0 (62 ^ n) i (omega arith)
            (omega (arith, steps_fit n b, one-le-pow n 62 (omega arith))) (mod-eq_of_lt below)))),
)
