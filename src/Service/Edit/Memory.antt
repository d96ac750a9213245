-- ===== src/Service/Edit/Memory.antt =====
-- `Create`, `Update` and `Remove` over the memory backends.
use vshortlink.Prelude.{
  ℕ, ◌≤◌, ◌<◌, ◌≡◌, refl, ap, ◌∙◌, false, ◌||◌, some, List, [], ◌∷◌, ◌++◌, Text, same_refl, ltb,
  ==_iff, if◌then◌else◌, length, ok, arith, Bool-cases, inl, inr,
}
use vshortlink.Prelude.Int.{pos, ltb_ℤ}
use vshortlink.Prelude.Keyed.{lookup-insert, nat_key, text_key}
use vshortlink.Link.{Time, ShortLink, link_status_active}
use vshortlink.Memory.Pool
use vshortlink.Memory.Pool.{MemoryShortCodePool, memory_pool}
use vshortlink.Memory.Pool.Queue.{queue, head_or_empty, rest_of, pull-queue}
use vshortlink.Memory.Cache
use vshortlink.Memory.Cache.{CacheItem, MemoryShortLinkCache, memory_cache}
use vshortlink.Memory.Cache.Entries.{entry, entry-add}
use vshortlink.Memory.Repo
use vshortlink.Memory.Repo.{MemoryShortLinkRepository, memory_repository}
use vshortlink.Service.State.{Config, State}
use vshortlink.Service.Edit.{add, create}

abbrev pub AllMemory : Type 0 → Type 0 → Type 0
AllMemory T L = State MemoryShortLinkRepository MemoryShortLinkCache MemoryShortCodePool T L

-- The link that `Add` builds, with the id that the repository gives it.
abbrev pub new_link : ℕ → Text → Text → Text → Time → ShortLink
new_link id code title link expire = record {
  id = id;
  length = length code;
  code = code;
  title = title;
  link = link;
  expire = expire;
  status = link_status_active;
  create_time = 0;
  modify_time = 0;
}

module _ {T L : Type 0} (iterate : List (ℕ × ShortLink) → List (ℕ × ShortLink)) (s : AllMemory T L)
    (now : Time) (code title link : Text) (expire : Time) where
  -- What `Add` leaves: the link under a new id, its code in the index, and the item in the cache.
  pub add-holds :
      (s' : AllMemory T L) × (add
          (memory_repository iterate)
          memory_cache
          memory_pool
          now
          code
          title
          link
          expire
          s
        ≡ (ok (new_link s.repo.next_id code title link expire), s'))
      × ((Repo.get_by_code code s'.repo).0
          ≡ ok (some (new_link s.repo.next_id code title link expire)))
      × (entry s'.cache (length code) code ≡ some (record { link = link; expire_time = expire }))
      × (s'.pool ≡ s.pool)
      × (s'.spawned ≡ s.spawned)
  unfolding add Repo.create Repo.get_by_code
  add-holds = (
    record s {
      cache = (Cache.add (length code) code link expire s.cache).1;
      repo = (Repo.create now (new_link 0 code title link expire) s.repo).1;
    },
    (unfold Cache.add in refl),
    ground (
      arith,
      lookup-insert code code s.repo.next_id s.repo.code_to_id,
      lookup-insert s.repo.next_id s.repo.next_id (new_link s.repo.next_id code title link expire)
          s.repo.links,
      same_refl code,
    ),
    entry-add s.cache (length code) (length code) code code link expire
        ∙ ground (arith, same_refl code),
    refl,
    refl,
  )

module _ {T L : Type 0} (iterate : List (ℕ × ShortLink) → List (ℕ × ShortLink)) (c : Config)
    (s : AllMemory T L) (n : ℕ) (now : Time) (title link : Text) (expire : Time) (low : 0 < n)
    (high : n ≤ c.max_code_length) where
  abbrev pulled_code : Text
  pulled_code = head_or_empty (queue s.pool n)

  abbrev spawned_after : List ℕ
  spawned_after =
      if ltb 10 (length (rest_of (queue s.pool n))) then s.spawned else s.spawned ++ n ∷ []

  pub create-add :
      create (memory_repository iterate) memory_cache memory_pool c now title link (pos n) expire s
      ≡ add
          (memory_repository iterate)
          memory_cache
          memory_pool
          now
          pulled_code
          title
          link
          expire
          (record s { pool = (Pool.pull n s.pool).1; spawned = spawned_after })
  unfolding create
  create-add =
      let valid : (ltb_ℤ (pos n) (pos 1) || ltb_ℤ (pos c.max_code_length) (pos n)) ≡ false =
        ground arith in
      elim (Bool-cases (ltb 10 (length (rest_of (queue s.pool n))))) [
        | inl enough ↦ rw (valid, (pull-queue s.pool n n).0, enough)
        | inr low_pool ↦ rw (valid, (pull-queue s.pool n n).0, low_pool)
      ]

  -- A valid length takes the oldest code of its pool, or "" if the pool is empty; stores the link
  -- under it in the repository and in the cache; and starts a batch unless more than ten are left.
  pub create-holds :
      (s' : AllMemory T L) × (create
          (memory_repository iterate)
          memory_cache
          memory_pool
          c
          now
          title
          link
          (pos n)
          expire
          s
        ≡ (ok (new_link s.repo.next_id (head_or_empty (queue s.pool n)) title link expire), s'))
      × ((Repo.get_by_code (head_or_empty (queue s.pool n)) s'.repo).0
          ≡ ok (some (new_link s.repo.next_id (head_or_empty (queue s.pool n)) title link expire)))
      × (entry s'.cache (length (head_or_empty (queue s.pool n))) (head_or_empty (queue s.pool n))
          ≡ some (record { link = link; expire_time = expire }))
      × (queue s'.pool n ≡ rest_of (queue s.pool n))
      × (s'.spawned
          ≡ (if ltb 10 (length (rest_of (queue s.pool n))) then s.spawned else s.spawned ++ n ∷ []))
  create-holds =
      let s1 : AllMemory T L = record s {
        pool = (Pool.pull n s.pool).1;
        spawned = spawned_after;
      } in
      let (s', run, stored, cached, same_pool, same_spawned) =
        add-holds iterate s1 now pulled_code title link expire in
      (
        s',
        create-add ∙ run,
        stored,
        cached,
        ap (λ p. queue p n) same_pool ∙ (pull-queue s.pool n n).1 ∙ ground (arith, ==_iff n n),
        same_spawned,
      )
