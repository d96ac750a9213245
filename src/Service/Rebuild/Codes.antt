-- ===== src/Service/Rebuild/Codes.antt =====
-- Which codes a rebuilt pool holds.
use vshortlink.Prelude.{
  ℕ, zero, suc, ◌+◌, ◌%◌, ◌≤◌, ◌<◌, ◌≡◌, ◌≢◌, refl, ap, sym, ◌∙◌, false, ◌&&◌, not, some, List, [],
  ◌∷◌, ◌++◌, map, map-append, Text, same, same_iff, member, ==_iff, length, All, All-append,
  All-imp, Distinct, ok, arith, Bool-cases, inl, inr,
}
use vshortlink.Prelude.Int.{pos}
use vshortlink.Prelude.Keyed.{lookup, nat_key}
use vshortlink.Base62.{to_base62}
use vshortlink.Gen.Batches.{step_of, generator_of, ladder}
use vshortlink.Gen.Codes.{Distinct-ladder, Distinct-codes, residues, batch_of}
use vshortlink.Link.{Time, ShortLink}
use vshortlink.Memory.Pool.{erase_code}
use vshortlink.Memory.Pool.Queue.{queue}
use vshortlink.Memory.Repo
use vshortlink.Memory.Repo.{memory_repository}
use vshortlink.Memory.Repo.Rows.{IsTable}
use vshortlink.Memory.Pool.{memory_pool}
use vshortlink.Service.State.{Config}
use vshortlink.Service.Rebuild.{rebuild_code_pool}
use vshortlink.Service.Rebuild.Loops.{erase_all, batch_at, batches}
use vshortlink.Service.Rebuild.Pages.{MemoryState, used_links, queue-rebuild_code_pool}

not-member : (c : Text) (xs : List Text) → All (λ a. a ≢ c) xs → member c xs ≡ false
not-member c [] h = refl
not-member c (x ∷ xs) h = ground (arith, same_iff x c, not-member c xs h.1, h.0)

All-erase : (P : Text → Type 0) (c : Text) (xs : List Text) → All P xs → All P (erase_code c xs)
unfolding erase_code
All-erase P c [] h = tt
All-erase P c (x ∷ xs) h = elim (Bool-cases (same x c)) [
  | inl here ↦ rw here h.1
  | inr later ↦ rw later (h.0, All-erase P c xs h.1)
]

erase-Distinct : (c : Text) (xs : List Text) → Distinct xs → Distinct (erase_code c xs)
unfolding erase_code
erase-Distinct c [] d = tt
erase-Distinct c (x ∷ xs) d = elim (Bool-cases (same x c)) [
  | inl here ↦ rw here d.1
  | inr later ↦ rw later (All-erase (λ a. a ≢ x) c xs d.0, erase-Distinct c xs d.1)
]

member-erase :
    (c k : Text) (xs : List Text)
    → Distinct xs
    → member k (erase_code c xs) ≡ (member k xs && not (same c k))
unfolding erase_code
member-erase c k [] d = ground arith
member-erase c k (x ∷ xs) d =
    ground (
      arith,
      same_iff x c,
      same_iff x k,
      same_iff c k,
      member-erase c k xs d.1,
      not-member x xs d.0,
    )

member-erase_all :
    (cs : List Text) (k : Text) (xs : List Text)
    → Distinct xs
    → member k (erase_all cs xs) ≡ (member k xs && not (member k cs))
unfolding erase_all
member-erase_all [] k xs d = ground arith
member-erase_all (c ∷ cs) k xs d =
    member-erase_all cs k (erase_code c xs) (erase-Distinct c xs d)
    ∙ ground (arith, member-erase c k xs d)

erase_all-Distinct : (cs xs : List Text) → Distinct xs → Distinct (erase_all cs xs)
unfolding erase_all
erase_all-Distinct [] xs d = d
erase_all-Distinct (c ∷ cs) xs d = erase_all-Distinct cs (erase_code c xs) (erase-Distinct c xs d)

Distinct-append {ℓ} :
    {A : Type ℓ} (xs ys : List A)
    → Distinct xs
    → Distinct ys
    → All (λ x. All (λ y. y ≢ x) ys) xs
    → Distinct (xs ++ ys)
Distinct-append [] ys dx dy h = dy
Distinct-append (x ∷ xs) ys dx dy h =
    (All-append (λ a. a ≢ x) xs ys dx.0 h.0, Distinct-append xs ys dx.1 dy h.1)

module _ (len b : ℕ) (fits : len ≤ 10) where
  -- The numbers of `rounds` start indices, with no bound.
  ladders : ℕ → ℕ → List ℕ
  ladders zero start = []
  ladders (suc rounds) start = ladder b start (step_of len b) ++ ladders rounds (start + 1)

  batches-ladders :
      (rounds start : ℕ)
      → start + rounds ≤ step_of len b
      → batches (generator_of len b) rounds start ≡ map pos (ladders rounds start)
  unfolding batches batch_at ladders
  batches-ladders zero start h = refl
  batches-ladders (suc rounds) start h =
      rw (batch_of len b fits start (omega arith), batches-ladders rounds (start + 1) (omega arith))
        (sym (map-append pos (ladder b start (step_of len b)) (ladders rounds (start + 1))))

  ladders-residues :
      (rounds start : ℕ)
      → start + rounds ≤ step_of len b
      → All (λ x. start ≤ x % step_of len b) (ladders rounds start)
  unfolding ladders
  ladders-residues zero start h = tt
  ladders-residues (suc rounds) start h =
      All-append _ (ladder b start (step_of len b)) (ladders rounds (start + 1))
        (All-imp _ _ (λ x e. omega arith) (ladder b start (step_of len b))
          (residues len b fits start (omega arith)))
        (All-imp _ _ (λ x e. omega arith) (ladders rounds (start + 1))
          (ladders-residues rounds (start + 1) (omega arith)))

  ladders-Distinct :
      (rounds start : ℕ) → start + rounds ≤ step_of len b → Distinct (ladders rounds start)
  unfolding ladders
  ladders-Distinct zero start h = tt
  ladders-Distinct (suc rounds) start h =
      Distinct-append (ladder b start (step_of len b)) (ladders rounds (start + 1))
        (Distinct-ladder b start (step_of len b) (omega arith))
        (ladders-Distinct rounds (start + 1) (omega arith))
        (All-imp _ _
          (λ x e.
            All-imp _ _ (λ y f same'. omega (arith, e, f, ap (λ n. n % step_of len b) same'))
              (ladders rounds (start + 1)) (ladders-residues rounds (start + 1) (omega arith)))
          (ladder b start (step_of len b)) (residues len b fits start (omega arith)))

  -- No two of the codes of start indices below the step are equal.
  pub batches-Distinct :
      (rounds start : ℕ)
      → start + rounds ≤ step_of len b
      → Distinct (map (λ z. to_base62 z len) (batches (generator_of len b) rounds start))
  batches-Distinct rounds start h =
      rw (batches-ladders rounds start (omega arith))
        (Distinct-codes len b fits (ladders rounds start) (ladders-Distinct rounds start h))

-- On the memory backends, with the generator of the length and a stored start index `k` of at most
-- the step: `RebuildCodePool` returns no error, and the pool of the length then holds a code exactly
-- when a start index below `k` generates it and no active or expired link has it, never twice. The
-- fuel has to exceed the number of those links.
pub rebuild_code_pool_exact :
    {C T L : Type 0} (iterate : List (ℕ × ShortLink) → List (ℕ × ShortLink)) (n b k : ℕ)
    (now : Time) (fuel : ℕ) (c : Config) (s : MemoryState C T L)
    → n ≤ 10
    → 0 < n
    → n ≤ c.max_code_length
    → k ≤ step_of n b
    → lookup n s.generators ≡ some (generator_of n b)
    → Repo.get_start_index n s.repo ≡ (ok (pos k), s.repo)
    → IsTable (iterate s.repo.links)
    → length (used_links (iterate s.repo.links) n) < fuel
    → (s' : MemoryState C T L) × (rebuild_code_pool
          (memory_repository iterate)
          memory_pool
          fuel
          c
          now
          (pos n)
          s
        ≡ (ok tt, s'))
      × Distinct (queue s'.pool n)
      × ((code : Text)
          → member code (queue s'.pool n) ≡ (
              member code (map (λ z. to_base62 z n) (batches (generator_of n b) k 0))
              && not (member code (map (λ l. l.code) (used_links (iterate s.repo.links) n)))))
rebuild_code_pool_exact iterate n b k now fuel c s fits low high hk hg hs t h =
    let (s', run, same_repo, pools) =
      queue-rebuild_code_pool iterate n k (generator_of n b) now fuel c s low high hg hs t h in
    let used = map (λ l. l.code) (used_links (iterate s.repo.links) n) in
    let codes = map (λ z. to_base62 z n) (batches (generator_of n b) k 0) in
    let left : queue s'.pool n ≡ erase_all used codes = pools n ∙ ground (arith, ==_iff n n) in
    (
      s',
      run,
      rw left (erase_all-Distinct used codes (batches-Distinct n b fits k 0 (omega arith))),
      λ code.
          rw left (member-erase_all used code codes (batches-Distinct n b fits k 0 (omega arith))),
    )
