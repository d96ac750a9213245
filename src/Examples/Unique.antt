-- ===== src/Examples/Unique.antt =====
-- The codes of the service over the SQL repository, the memory cache and the memory pool.
use vshortlink.Memory.Pool.Queue.{queue}
use vshortlink.Prelude.Keyed.{lookup, nat_key}
use vshortlink.Prelude.{
  ◌≤◌, ℕ, ◌∙◌, ap, ◌≡◌, ◌<◌, refl, sym, subst, [], ◌∷◌, Text, codes, same_iff, same_refl, some,
  length, arith, if◌then◌else◌, occurrences, Bool-cases, inl, inr, ◌==◌, ==_iff, false, true,
}
use vshortlink.Prelude.Int.{pos}
use vshortlink.Link.{Time}
use vshortlink.Memory.Pool.{MemoryShortCodePool, memory_pool}
use vshortlink.Memory.Pool.Contract.{memory_pool_refines}
use vshortlink.Memory.Cache.{memory_cache}
use vshortlink.Memory.Cache.Contract.{memory_cache_refines}
use vshortlink.Service.State.{default_config}
use vshortlink.Service.Edit.{create, remove}
use vshortlink.Sql.Repo.{sql_repository}
use vshortlink.Sql.Unique.{Reach-IsUnique, creates, removes, generates, here, next}
use vshortlink.Memory.Pool
use vshortlink.Memory.Cache
use vshortlink.Gen.Batches.{generator_of}
use vshortlink.Base62.{index_rune}
use vshortlink.Base62.RoundTrip.{place_value}
use vshortlink.Service.State.{Config}
use vshortlink.Service.Generate.{batch_generate}
use vshortlink.Service.Generate.Lawful.{batch_index, All-occurs}
use vshortlink.Sql.Owned.{owned, IsUnique}
use vshortlink.Sql.Repo
use vshortlink.Memory.Pool
use vshortlink.Examples.Table.{database_index, database, database_laws, database_answers}
use vshortlink.Examples.Sql.{two_rows, Stored, stored, cache_fine, pool_fine}

held :
    (n : ℕ) (k : Text)
    → memory_pool_refines.0.amount stored.pool n k ≡ occurrences k (queue stored.pool n)
held n k =
    subst
      (λ (a : MemoryShortCodePool → ℕ → Text → ℕ).
        a stored.pool n k ≡ occurrences k (queue stored.pool n))
      (sym memory_pool_refines.2) refl

held_one :
    (k : Text) → occurrences k (queue stored.pool 1) ≡ occurrences k (codes "c" ∷ codes "d" ∷ [])
unfolding queue lookup
held_one k = refl

held_other : (n : ℕ) (k : Text) → (1 == n) ≡ false → occurrences k (queue stored.pool n) ≡ 0
unfolding queue lookup
held_other n k h = ground (arith, h)

held_at_one :
    (n : ℕ) (k : Text)
    → (1 == n) ≡ true
    → memory_pool_refines.0.amount stored.pool n k ≡ occurrences k (codes "c" ∷ codes "d" ∷ [])
held_at_one n k one =
    held n k
    ∙ ap (λ m. occurrences k (queue stored.pool m)) (ground (arith, one, ==_iff 1 n))
    ∙ held_one k

-- Batches of two codes of one character, of which twenty have been issued.
abbrev small : Config
small = record default_config { manual_code_length = 0; batch_generate_size = 2 }

abbrev issued : Stored
issued = record stored {
  repo = record two_rows {
    indices = record { id = 1; start_index = pos 20; create_time = 0; modify_time = 0 } ∷ [];
  };
  generators = (1, generator_of 1 2) ∷ [];
}

abbrev owns : ℕ → Text → ℕ
owns =
    owned database database_laws database_answers database_index memory_cache memory_cache_refines.0
      memory_pool memory_pool_refines.0 small issued

used : Text → ℕ
used k = occurrences k (codes "a" ∷ codes "b" ∷ codes "c" ∷ codes "d" ∷ [])

owns_one : (n : ℕ) (k : Text) → owns n k ≡ (if 1 == n then used k else 0)
unfolding database_laws used
owns_one n k = elim (Bool-cases (1 == n)) [
  | inl one ↦ ground (arith, held_at_one n k one, one)
  | inr other ↦ ground (arith, held n k, held_other n k other, other)
]

used_once : (k : Text) → used k ≤ 1
unfolding used
used_once k = ground (
  arith,
  same_iff (codes "a") k,
  same_iff (codes "b") k,
  same_iff (codes "c") k,
  same_iff (codes "d") k,
)

used_below : (k : Text) → 0 < used k → batch_index 1 2 k < 20
unfolding used place_value index_rune
used_below k h =
    All-occurs (λ j. batch_index 1 2 j < 20) k (codes "a" ∷ codes "b" ∷ codes "c" ∷ codes "d" ∷ [])
      (omega arith, (omega arith, (omega arith, (omega arith, tt)))) h

at_one : (n : ℕ) → (1 == n) ≡ true → 1 ≡ n
at_one n one = ground (arith, one, ==_iff 1 n)

issued-IsUnique :
    IsUnique database database_laws database_answers database_index memory_cache
      memory_cache_refines.0 memory_pool memory_pool_refines.0 small issued
unfolding database_laws database_index
issued-IsUnique = record {
  cache_fine = cache_fine;
  pool_fine = pool_fine;
  sized_rows = (refl, (refl, tt));
  sized_pool = λ n k h. elim (Bool-cases (1 == n)) [
    | inl one ↦ ground (
      arith,
      held_at_one n k one,
      same_iff (codes "c") k,
      same_iff (codes "d") k,
      ==_iff 1 n,
      ==_iff (length k) n,
      one,
      h,
    )
    | inr other ↦ held n k ∙ held_other n k other
  ];
  once = λ n k. ground (arith, owns_one n k, used_once k);
  issued = λ n above. elim (Bool-cases (1 == n)) [
    | inl one ↦ (
      20,
      ap (λ m. database_index.starts issued.repo m) (sym (at_one n one)) ∙ refl,
      λ k h.
          subst (λ m. batch_index m 2 k < 20) (at_one n one)
            (used_below k (ground (arith, h, owns_one n k, one))),
    )
    | inr other ↦ (0, ground (arith, other), λ k h. absurd (ground (arith, h, owns_one n k, other)))
  ];
}

-- The memory cache takes every link.
abbrev takes : memory_cache_refines.0.Takes (codes "u") 900
takes = subst (λ (F : Text → Time → Type 0). F (codes "u") 900) (sym memory_cache_refines.2) tt

-- A link is created, a batch is issued, and the link of "a" is removed.
abbrev created : Stored
created =
    (create (sql_repository database) memory_cache memory_pool small 100 (codes "t") (codes "u")
      (pos 1) 900 issued).1

created_generator : lookup 1 created.generators ≡ some (generator_of 1 2)
unfolding create Pool.pull lookup Cache.add database Repo.create
created_generator = refl

created_start : database_index.starts created.repo 1 ≡ pos 20
unfolding create Pool.pull lookup Cache.add database database_index Repo.create
created_start = refl

abbrev generated : Stored
generated = (batch_generate (sql_repository database) memory_pool 100 1 created).1

abbrev removed : Stored
removed = (remove (sql_repository database) memory_cache memory_pool (codes "a") generated).1

Reach-IsUnique_example :
    IsUnique database database_laws database_answers database_index memory_cache
      memory_cache_refines.0 memory_pool memory_pool_refines.0 small removed
Reach-IsUnique_example =
    Reach-IsUnique database database_laws database_answers database_index memory_cache
      memory_cache_refines.0 memory_pool memory_pool_refines.0 small issued removed issued-IsUnique
      (next
        (next
          (next here (
            creates 100 (codes "t") (codes "u") 1 900 (codes "c") (omega arith) (omega arith) takes
              (ground (arith, held 1 (codes "c"), held_one (codes "c"), same_refl (codes "c")))))
          (generates 100 1 20 (omega arith) (omega arith) created_generator created_start
            (omega arith)))
        (removes (codes "a")))
