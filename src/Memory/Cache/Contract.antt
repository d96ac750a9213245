-- ===== src/Memory/Cache/Contract.antt =====
-- The memory cache keeps the contract of a cache, with every link and the exact expiry.
use vshortlink.Prelude.{ℕ, ◌≤◌, ◌≡◌, refl, Text, same_iff, ==_iff, ok, arith}
use vshortlink.Prelude.Keyed.{
  lookup, delete, lookup_nil, lookup-insert, lookup-delete, nat_key, text_key,
}
use vshortlink.Link.{Time}
use vshortlink.Interfaces.Contract.{CacheLaws}
use vshortlink.Memory.Cache.{
  MemoryShortLinkCache, CacheItem, memory_cache, code_map_or_new, get, add, remove,
}
use vshortlink.Memory.Cache.Entries.{entry, visible, entry-add, entry-remove, get-entry}

cache_remove_ok : (n : ℕ) (k : Text) (c : MemoryShortLinkCache) → (remove n k c).0 ≡ ok tt
unfolding remove
cache_remove_ok n k c = ground arith

visible-get :
    (c : MemoryShortLinkCache) (now later : Time) (n m : ℕ) (k j : Text)
    → now ≤ later
    → visible later (entry (get now n k c).1 m j) ≡ visible later (entry c m j)
unfolding entry get code_map_or_new
visible-get c now later n m k j h =
    let code_map = code_map_or_new (lookup n c.cache) in
    ground (
      arith,
      lookup_nil {V = CacheItem} j,
      ==_iff n m,
      same_iff k j,
      lookup-insert n m (delete k code_map) c.cache,
      lookup-delete k j code_map,
    )

pub memory_cache_refines :
    (contract : CacheLaws memory_cache) × (contract.IsFine ≡ (λ c. Unit {0}))
    × (contract.Takes ≡ (λ link e. Unit {0}))
    × (contract.kept ≡ (λ e. e))
    × (contract.shown ≡ (λ c now n k. visible now (entry c n k)))
unfolding add
memory_cache_refines = (
  record {
    IsFine = λ c. Unit {0};
    Takes = λ link e. Unit {0};
    kept = λ e. e;
    shown = λ c now n k. visible now (entry c n k);
    get_shown = λ c now n k fine.
        ((get-entry c n n k k now).0, tt, λ later m j h. visible-get c now later n m k j h);
    add_shown = λ c n k link e fine takes.
        (refl, tt, λ now m j. ground (arith, entry-add c n m k j link e));
    remove_shown = λ c n k fine.
        ((cache_remove_ok n k c), tt, λ now m j. ground (arith, entry-remove c n m k j));
  },
  refl,
  refl,
  refl,
  refl,
)
