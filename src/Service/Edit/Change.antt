-- ===== src/Service/Edit/Change.antt =====
-- `Update` and `Remove` over the memory backends.
use vshortlink.Prelude.{
  ℕ, ◌≡◌, ◌≢◌, refl, ap, sym, ◌∙◌, ◌&&◌, Option, none, some, List, Text, same, same_iff, same_refl,
  ◌==◌, ==_iff, if◌then◌else◌, length, ok, err, link_not_found, arith,
}
use vshortlink.Prelude.Keyed.{
  lookup, insert, delete, lookup-insert, lookup-delete, nat_key, text_key,
}
use vshortlink.Link.{Time, ShortLink}
use vshortlink.Memory.Pool.{memory_pool}
use vshortlink.Memory.Cache
use vshortlink.Memory.Cache.{CacheItem, memory_cache}
use vshortlink.Memory.Cache.Entries.{entry, entry-add, entry-remove}
use vshortlink.Memory.Repo
use vshortlink.Memory.Repo.{MemoryShortLinkRepository, memory_repository}
use vshortlink.Service.Edit.{update, remove}
use vshortlink.Service.Edit.Memory.{AllMemory}

abbrev pub edited : ShortLink → Text → Text → Time → ShortLink
edited l title link expire = record l { link = link; title = title; expire = expire }

pub cache_remove_ok :
    (n : ℕ) (c : Text) (x : Cache.MemoryShortLinkCache) → (Cache.remove n c x).0 ≡ ok tt
unfolding Cache.remove
cache_remove_ok n c x = ground arith

get_found :
    (code : Text) (id : ℕ) (l : Option ShortLink) (r : MemoryShortLinkRepository)
    → lookup code r.code_to_id ≡ some id
    → lookup id r.links ≡ l
    → Repo.get_by_code code r ≡ (ok l, r)
unfolding Repo.get_by_code
get_found code id l r hc hl = rw (hc, Repo.get_by_code) (ap (λ o. (ok o, r)) hl)

pub get_missing :
    (code : Text) (r : MemoryShortLinkRepository)
    → lookup code r.code_to_id ≡ none
    → Repo.get_by_code code r ≡ (err link_not_found, r)
unfolding Repo.get_by_code
get_missing code r h = rw (h, Repo.get_by_code)

update_ok :
    (now : Time) (l old : ShortLink) (r : MemoryShortLinkRepository)
    → lookup l.id r.links ≡ some old
    → Repo.update now l r ≡ (
      ok tt,
      record r { links = insert l.id l r.links; code_to_id = insert l.code l.id r.code_to_id },
    )
unfolding Repo.update
update_ok now l old r h = rw (h, Repo.update)

delete_found :
    (code : Text) (id : ℕ) (r : MemoryShortLinkRepository)
    → lookup code r.code_to_id ≡ some id
    → Repo.delete_by_code code r
      ≡ (ok tt, record r { code_to_id = delete code r.code_to_id; links = delete id r.links })
unfolding Repo.delete_by_code
delete_found code id r h = rw (h, Repo.delete_by_code)

module _ {T L : Type 0} (iterate : List (ℕ × ShortLink) → List (ℕ × ShortLink)) (s : AllMemory T L)
    (now : Time) (code title link : Text) (expire : Time) where
  -- `Update` of a code that the index does not have changes nothing and returns the error.
  pub update_missing :
      lookup code s.repo.code_to_id ≡ none
      → update (memory_repository iterate) memory_cache memory_pool now code title link expire s
        ≡ (err link_not_found, s)
  unfolding update
  update_missing h = rw (get_missing code s.repo h)

  -- `Update` of a link that is stored under its own id and code changes its title, target and
  -- expiry, in the repository and in the cache.
  pub update-holds :
      (id : ℕ) (l : ShortLink)
      → lookup code s.repo.code_to_id ≡ some id
      → lookup id s.repo.links ≡ some l
      → l.id ≡ id
      → l.code ≡ code
      → (s' : AllMemory T L) × (update
            (memory_repository iterate)
            memory_cache
            memory_pool
            now
            code
            title
            link
            expire
            s
          ≡ (ok tt, s'))
        × ((Repo.get_by_code code s'.repo).0 ≡ ok (some (edited l title link expire)))
        × (entry s'.cache (length code) code ≡ some (record { link = link; expire_time = expire }))
  unfolding update Cache.add
  update-holds id l hc hl own_id own_code =
      let l' = edited l title link expire in
      let r' : MemoryShortLinkRepository = record s.repo {
        links = insert l.id l' s.repo.links;
        code_to_id = insert l.code l.id s.repo.code_to_id;
      } in
      (
        record s { cache = (Cache.add (length code) code link expire s.cache).1; repo = r' },
        rw
            (
              get_found code id (some l) s.repo hc hl,
              update_ok now l' l s.repo (ap (λ i. lookup i s.repo.links) own_id ∙ hl),
            )
            refl,
        ap (λ x. x.0)
            (get_found code l.id (some l') r'
              (lookup-insert l.code code l.id s.repo.code_to_id
                ∙ ground (arith, same_iff l.code code))
              (lookup-insert l.id l.id l' s.repo.links ∙ ground (arith, ==_iff l.id l.id))),
        entry-add s.cache (length code) (length code) code code link expire
            ∙ ground (arith, same_refl code),
      )

-- `Remove` of a code that the index has succeeds: the link of the code is gone, and of the cached
-- items only that of the code is.
pub remove-holds :
    {T L : Type 0} (iterate : List (ℕ × ShortLink) → List (ℕ × ShortLink)) (s : AllMemory T L)
    (code : Text) (id : ℕ)
    → lookup code s.repo.code_to_id ≡ some id
    → (s' : AllMemory T L) × (remove (memory_repository iterate) memory_cache memory_pool code s
        ≡ (ok tt, s'))
      × ((Repo.get_by_code code s'.repo).0 ≡ err link_not_found)
      × ((m : ℕ) (other : Text)
          → entry s'.cache m other
            ≡ (if (length code == m) && same code other then none else entry s.cache m other))
unfolding remove
remove-holds iterate s code id h =
    let r' : MemoryShortLinkRepository = record s.repo {
      code_to_id = delete code s.repo.code_to_id;
      links = delete id s.repo.links;
    } in
    (
      record s { cache = (Cache.remove (length code) code s.cache).1; repo = r' },
      rw (delete_found code id s.repo h, cache_remove_ok (length code) code s.cache),
      ap (λ x. x.0)
          (get_missing code r'
            (lookup-delete code code s.repo.code_to_id ∙ ground (arith, same_refl code))),
      λ m other. entry-remove s.cache (length code) m code other,
    )

-- `Remove` of a code that the index has leaves every other code its link, unless the index gives
-- both the same id.
remove_keeps_others :
    {T L : Type 0} (iterate : List (ℕ × ShortLink) → List (ℕ × ShortLink)) (s : AllMemory T L)
    (code other : Text) (id j : ℕ)
    → lookup code s.repo.code_to_id ≡ some id
    → lookup other s.repo.code_to_id ≡ some j
    → code ≢ other
    → id ≢ j
    → (Repo.get_by_code other
        (remove (memory_repository iterate) memory_cache memory_pool code s).1.repo).0
      ≡ (Repo.get_by_code other s.repo).0
unfolding remove
remove_keeps_others iterate s code other id j h hj ne nj =
    let r' : MemoryShortLinkRepository = record s.repo {
      code_to_id = delete code s.repo.code_to_id;
      links = delete id s.repo.links;
    } in
    rw (delete_found code id s.repo h) (
      ap (λ x. x.0)
        (get_found other j (lookup j s.repo.links) r'
          (lookup-delete code other s.repo.code_to_id ∙ ground (arith, same_iff code other))
          (lookup-delete id j s.repo.links ∙ ground (arith, ==_iff id j)))
      ∙ sym (ap (λ x. x.0) (get_found other j (lookup j s.repo.links) s.repo hj refl)))
