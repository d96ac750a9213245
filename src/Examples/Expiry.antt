-- ===== src/Examples/Expiry.antt =====
-- Expiry and recycling over the memory backends at concrete inputs.
use vshortlink.Prelude.{
  ℕ, codes, ◌≡◌, ◌≢◌, refl, some, List, [], ◌∷◌, ◌==◌, ==_iff, All, All-imp, ok, arith, Bool-cases,
  inl, inr,
}
use vshortlink.Prelude.Keyed.{lookup, delete, nat_key}
use vshortlink.Link.{ShortLink}
use vshortlink.Memory.Pool.{memory_pool}
use vshortlink.Memory.Cache.{memory_cache}
use vshortlink.Memory.Repo
use vshortlink.Memory.Repo.{MemoryShortLinkRepository, memory_repository, new_repository}
use vshortlink.Memory.Repo.Index.{IsIndexed, create-IsIndexed, new_repository-IsIndexed}
use vshortlink.Service.Expire.{expire_actives, recycle_expires}
use vshortlink.Service.Expire.Ends.{expire_actives-ends}
use vshortlink.Service.Expire.Recycles.{recycle_expires-ends}
use vshortlink.Examples.Data.{Sample, sample, stored_link}

-- Each key once, with the entry that a lookup finds.
entries_once : List (ℕ × ShortLink) → List (ℕ × ShortLink)
entries_once [] = []
entries_once ((id, l) ∷ m) = (id, l) ∷ delete id (entries_once m)

module _ (P : ℕ × ShortLink → Type 0) (id : ℕ) where
  All-delete : (m : List (ℕ × ShortLink)) → All P m → All (λ e. P e × (id ≢ e.0)) (delete id m)
  unfolding delete
  All-delete [] h = tt
  All-delete (e ∷ m) h = elim (Bool-cases (e.0 == id)) [
    | inl own ↦ rw own (All-delete m h.1)
    | inr other ↦ rw other ((h.0, λ same_id. ground (arith, other, same_id)), All-delete m h.1)
  ]

visits_once : (m : List (ℕ × ShortLink)) → All (λ e. lookup e.0 m ≡ some e.1) (entries_once m)
unfolding entries_once lookup
visits_once [] = tt
visits_once ((id, l) ∷ m) = (
  ground (arith, ==_iff id id),
  All-imp _ _ (λ e h. ground (arith, ==_iff id e.0, h)) (delete id (entries_once m))
      (All-delete (λ e. lookup e.0 m ≡ some e.1) id (entries_once m) (visits_once m)),
)

abbrev one_link : MemoryShortLinkRepository
one_link = (Repo.create 0 (stored_link 0 (codes "a")) new_repository).1

one_link-IsIndexed : IsIndexed one_link
one_link-IsIndexed =
    create-IsIndexed 0 (stored_link 0 (codes "a")) new_repository new_repository-IsIndexed

one_id : one_link.next_id ≡ 2
unfolding Repo.create
one_id = refl

abbrev overdue : Sample
overdue = record sample { repo = one_link }

expire_actives-ends_example :
    (s' : Sample) × (expire_actives
        (memory_repository entries_once)
        memory_cache
        memory_pool
        3
        5000
        overdue
      ≡ (ok tt, s'))
    × IsIndexed s'.repo
expire_actives-ends_example =
    expire_actives-ends entries_once visits_once 3 5000 overdue one_link-IsIndexed
      (omega (arith, one_id))

recycle_expires-ends_example :
    (s' : Sample) × (recycle_expires
        (memory_repository entries_once)
        memory_cache
        memory_pool
        3
        5000
        overdue
      ≡ (ok tt, s'))
    × IsIndexed s'.repo
recycle_expires-ends_example =
    recycle_expires-ends entries_once visits_once 3 5000 overdue one_link-IsIndexed
      (omega (arith, one_id))
